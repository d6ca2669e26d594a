-- ===== src/Tests/Services.antt =====
-- The theorems on the query classes of gdata/services at concrete queries.
use libgdata.Base.{◌≡◌, refl, true, false, Option, none, some, Text, codes, ◌++◌, [], ◌∷◌, arith}
use libgdata.Base.Int.{pos, minus_one}
use libgdata.Query.Build.{query_uri}
use libgdata.Query.Rendering.{base_params}
use libgdata.Query.Split.{params_of}
use libgdata.Services.CalendarQuery
use libgdata.Services.CalendarQuery.Laws.{calendar_query_uri-params}
use libgdata.Services.DocumentsQuery
use libgdata.Services.DocumentsQuery.Laws.{documents_query_uri-params}
use libgdata.Services.DocumentsUploadQuery
use libgdata.Services.DocumentsUploadQuery.{Folder}
use libgdata.Services.DocumentsUploadQuery.Laws.{build_uri-target}
use libgdata.Tests.Glib.{letters, letters-Lacks, letters_only, letters_only-IsDocumented}
use libgdata.Tests.Query.{cats, feed}

abbrev meetings : CalendarQuery.CalendarQuery
meetings = record {
  base = cats;
  future_events = false;
  order_by = some (codes "starttime");
  recurrence_expansion_start = minus_one;
  recurrence_expansion_end = minus_one;
  single_events = true;
  sort_order = none;
  start_min = pos 1262304000;
  start_max = minus_one;
  timezone = some (codes "Europe/London");
  max_attendees = 3;
  show_deleted = false;
}

calendar_query_uri-params_example :
    (uri : Text) × (query_uri cats (CalendarQuery.get_query_uri letters_only meetings) feed
      ≡ some uri)
    × (params_of uri
        ≡ base_params letters_only cats ++ CalendarQuery.own_params letters_only meetings)
calendar_query_uri-params_example =
    calendar_query_uri-params letters_only letters_only-IsDocumented meetings feed refl refl
      (omega arith)

abbrev papers : DocumentsQuery.DocumentsQuery
papers = record {
  base = cats;
  show_deleted = false;
  show_folders = true;
  exact_title = true;
  folder_id = some (codes "root?x");
  title = some (codes "a & b");
  collaborator_addresses = codes "a@b" ∷ codes "c&d@e" ∷ [];
  reader_addresses = [];
}

documents_query_uri-params_example :
    (uri : Text) × (query_uri cats (DocumentsQuery.get_query_uri letters_only papers) feed
      ≡ some uri)
    × (params_of uri
        ≡ base_params letters_only cats ++ DocumentsQuery.own_params letters_only papers)
documents_query_uri-params_example =
    documents_query_uri-params letters_only letters_only-IsDocumented papers feed refl refl
      (omega arith)

-- A folder that the server gave no upload link.
abbrev letters_folder : Option Folder
letters_folder = some (record { upload_link = none; resource_id = codes "abc" })

abbrev plain_uri : Text
plain_uri =
    codes
      "https://docs.google.com/feeds/upload/create-session/default/private/full/abc/contents?convert=false"

build_uri-target_example :
    (DocumentsUploadQuery.build_uri letters (record { folder = letters_folder; convert = false })
      ≡ some plain_uri)
    × (params_of plain_uri ≡ codes "convert=false" ∷ [])
unfolding letters
build_uri-target_example =
    build_uri-target letters (λ t. letters-Lacks b'?' t refl) refl
      (record { folder = letters_folder; convert = false }) (omega arith)
