-- ===== src/Services/DocumentsUploadQuery/Laws.antt =====
-- What the URI of a documents upload query tells the server.
use libgdata.Base.{
  ◌≡◌, refl, sym, ap, ◌∙◌, Bool, true, false, Option, none, some, List, [], ◌∷◌, ◌++◌, append_assoc,
  append-nil, Text, codes, All-append, Lacks, ne→==, arith,
}
use libgdata.Query.Split.{params_of, params_of-render}
use libgdata.Query.Uri.{render}
use libgdata.Service.{◌>>=◌}
use libgdata.Service.Uris
use libgdata.Service.Uris.{
  Argument, string, append_argument, format_uri, fix_uri_scheme, has_prefix,
}
use libgdata.Service.Templates.{format_uri-literal}
use libgdata.Services.DocumentsUploadQuery.{
  DocumentsUploadQuery, Folder, link_uri, base_uri, build_uri, text_of, convert_field,
}

abbrev root : Text
root = codes "https://docs.google.com/feeds/upload/create-session/default/private/full"

abbrev pub target_of : (Text → Text) → Option Text → Text → Text
target_of escaped none id = root ++ codes "/" ++ (escaped id ++ codes "/contents")
target_of escaped (some link) id = link

-- Where the documents of a folder go: the root, the folder's own URI, or one below the root.
abbrev pub target : (Text → Text) → Option Folder → Text
target escaped none = root
target escaped (some folder) = target_of escaped folder.upload_link folder.resource_id

-- The link of a folder, if it has one.
abbrev pub given_link : Option Folder → Text
given_link none = []
given_link (some folder) = text_of folder.upload_link

abbrev pub setting : Bool → Text
setting true = codes "convert=true"
setting false = codes "convert=false"

-- A part of a format without placeholders is copied.
format_uri-Lacks :
    (escaped : Text → Text) (t format : Text) (args : List Argument) (out : Text)
    → Lacks b'%' t
    → format_uri escaped (t ++ format) args out ≡ format_uri escaped format args (out ++ t)
format_uri-Lacks escaped [] format args out h =
    ap (format_uri escaped format args) (sym (append-nil out))
format_uri-Lacks escaped (c ∷ t) format args out (n, h) =
    format_uri-literal escaped c (t ++ format) args out (ne→== c b'%' n)
    ∙ format_uri-Lacks escaped t format args (out ++ c ∷ []) h
    ∙ ap (format_uri escaped format args) (append_assoc out (c ∷ []) t)

-- A placeholder `%s` appends its argument, escaped.
format_uri-string :
    (escaped : Text → Text) (t format : Text) (args : List Argument) (out : Text)
    → format_uri escaped (b'%' ∷ b's' ∷ format) (string t ∷ args) out
      ≡ format_uri escaped format args (out ++ escaped t)
unfolding format_uri append_argument
format_uri-string escaped t format args out = refl

module _ (escaped : Text → Text) (plain : (t : Text) → Lacks b'?' (escaped t))
    (kept : escaped (codes "https") ≡ codes "https") where
  -- The format with its two arguments, and the URI below the root.
  format_uri-below :
      (id : Text)
      → format_uri escaped
          (codes
            "%s://docs.google.com/feeds/upload/create-session/default/private/full/%s/contents")
          (string (codes "https") ∷ string id ∷ [])
          []
        ≡ some (root ++ codes "/" ++ (escaped id ++ codes "/contents"))
  unfolding format_uri
  format_uri-below id =
      let middle = codes "://docs.google.com/feeds/upload/create-session/default/private/full/" in
      let start = escaped (codes "https") ++ middle in
      format_uri-string escaped (codes "https") (middle ++ codes "%s/contents") (string id ∷ []) []
      ∙ format_uri-Lacks escaped middle (codes "%s/contents") (string id ∷ [])
          (escaped (codes "https")) (omega arith)
      ∙ format_uri-string escaped id (codes "/contents") [] start
      ∙ format_uri-Lacks escaped (codes "/contents") [] [] (start ++ escaped id) (omega arith)
      ∙ ap (λ t. some t) (append_assoc start (escaped id) (codes "/contents"))
      ∙ ap (λ t. some ((t ++ middle) ++ (escaped id ++ codes "/contents"))) kept

  build_uri-below :
      (id : Text)
      → Uris.build_uri escaped
          (codes
            "%s://docs.google.com/feeds/upload/create-session/default/private/full/%s/contents")
          (string (codes "https") ∷ string id ∷ [])
        ≡ some (some (root ++ codes "/" ++ (escaped id ++ codes "/contents")))
  unfolding Uris.build_uri fix_uri_scheme has_prefix
  build_uri-below id = ap (λ m. m >>= λ uri. fix_uri_scheme uri) (format_uri-below id)

  link_uri-target :
      (link : Option Text) (id : Text)
      → link_uri escaped link id ≡ some (some (target_of escaped link id))
  unfolding link_uri
  link_uri-target none id = build_uri-below id
  link_uri-target (some link) id = refl

  base_uri-target :
      (folder : Option Folder) → base_uri escaped folder ≡ some (some (target escaped folder))
  unfolding base_uri
  base_uri-target none = refl
  base_uri-target (some folder) = link_uri-target folder.upload_link folder.resource_id

  target_of-Lacks :
      (link : Option Text) (id : Text)
      → Lacks b'?' (text_of link)
      → Lacks b'?' (target_of escaped link id)
  target_of-Lacks none id h =
      All-append _ (root ++ codes "/") (escaped id ++ codes "/contents") (omega arith)
        (All-append _ (escaped id) (codes "/contents") (plain id) (omega arith))
  target_of-Lacks (some link) id h = h

  target-Lacks :
      (folder : Option Folder) → Lacks b'?' (given_link folder) → Lacks b'?' (target escaped folder)
  target-Lacks none h = omega arith
  target-Lacks (some folder) h = target_of-Lacks folder.upload_link folder.resource_id h

  params_of-convert_field :
      (before : Text) (convert : Bool)
      → Lacks b'?' before
      → params_of (before ++ convert_field convert) ≡ setting convert ∷ []
  unfolding render
  params_of-convert_field before true h =
      params_of-render before (codes "convert=true" ∷ []) h (omega arith, tt)
  params_of-convert_field before false h =
      params_of-render before (codes "convert=false" ∷ []) h (omega arith, tt)

  -- With an escaping that leaves no `?` and keeps "https" as it is, and where the link that the server
  -- gives for a folder has no `?`: the upload goes to that link, or to the root, or below the root to the
  -- folder's resource id, escaped; and the one parameter that the server finds there is whether to
  -- convert the document.
  pub build_uri-target :
      (self : DocumentsUploadQuery)
      → Lacks b'?' (given_link self.folder)
      → (build_uri escaped self ≡ some (target escaped self.folder ++ convert_field self.convert))
        × (params_of (target escaped self.folder ++ convert_field self.convert)
            ≡ setting self.convert ∷ [])
  unfolding build_uri
  build_uri-target self h = (
    ap (λ m. m >>= λ base. some (text_of base ++ convert_field self.convert))
        (base_uri-target self.folder),
    params_of-convert_field (target escaped self.folder) self.convert (target-Lacks self.folder h),
  )
