-- ===== src/Tests/Answers.antt =====
-- The status of a request without a token, in the sample world.
use yaima.Base.{[]}
use yaima.Middleware.{Request, post}
use yaima.Routes

abbrev bare : Request
bare = record { method = post; path = "/auth/logout"; headers = [] }
