-- ===== src/External/Http.antt =====
-- The answers that the http crate names and the program gives.
pub data StatusCode : Type 0 where
  ok not_found bad_request internal_server_error : StatusCode
