-- ===== src/Tests.antt =====
-- The theorems at concrete inputs: each hypothesis holds there.
mod Batch
mod BatchRun
mod Buffer
mod Download
mod Entries
mod Glib
mod ClientLogin
mod Query
mod Service
mod Upload
mod Services
mod Oauth1
mod OauthRequests
mod Parser
