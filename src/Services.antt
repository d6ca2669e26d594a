-- ===== src/Services.antt =====
-- gdata/services: the classes of the services, so far their queries.
pub mod CalendarQuery
pub mod ContactsQuery
pub mod TasksQuery
pub mod DocumentsQuery
pub mod DocumentsUploadQuery
