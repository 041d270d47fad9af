-- ===== src/Push/CurlWrapper.antt =====
-- push/src/detail/curl_wrapper.cc. libcurl is a parameter: `H` is its state, the easy handle and what it talks to
-- included. The mutex is held throughout a call. A list of headers is in the order of appending.
pub mod Held
pub mod Isolated
pub mod Sample
mod Tests
use prometheus_cpp.Common.{
  ℕ, Bool, true, false, not, List, [], ◌∷◌, ◌++◌, Option, none, some, Bytes, codes, c_str, length,
  is_empty, ◌==◌, ◌-◌, if◌then◌else◌, ℤ, pos, negsuc, Result, ok, err, runtime_error,
}

-- push/include/prometheus/detail/http_method.h.
pub data HttpMethod : Type 0 where
  post put delete : HttpMethod

-- The calls of `curl_easy_setopt`.
pub data Setting : Type 0 where
  url : Bytes → Setting
  http_header : List Bytes → Setting
  post_field_size : ℕ → Setting
  post_fields : Bytes → Setting
  set_post : ℕ → Setting
  set_nobody : ℕ → Setting
  set_http_get : ℕ → Setting
  custom_request : Bytes → Setting
  http_auth_basic : Setting
  user_pwd : Bytes → Setting
  timeout : ℕ → Setting

-- What the code calls of libcurl. A Boolean tells whether a pointer is not null; a number is an error code.
pub record Curl (H : Type 0) : Type 0 where
  pub global_init : H → ℕ × H
  pub global_cleanup : H → H
  pub easy_init : H → Bool × H
  pub easy_cleanup : H → H
  pub easy_reset : H → H
  pub setopt : Setting → H → H
  pub perform : H → ℕ × H
  pub response_code : H → ℕ
  pub slist_append : List Bytes → Bytes → H → Bool × H
  pub slist_free_all : H → H

pub record CurlWrapper (H : Type 0) : Type 0 where
  pub opt_http_header : List Bytes
  pub presetup_curl : Option (H → H)

abbrev pub content_type : Bytes
content_type = codes "Content-Type: text/plain; version=0.0.4; charset=utf-8"

module _ {H : Type 0} where
  -- `if (presetupCurl_) presetupCurl_(curl_)`.
  abbrev pub presetup : Option (H → H) → H → H
  presetup none h = h
  presetup (some f) h = f h

module _ {H : Type 0} (curl : Curl H) where
  -- The constructor behind the two initialisations.
  unfoldable pub append_content_type : Option (H → H) → H → Result (CurlWrapper H) × H
  append_content_type f h =
      let (appended, h') = curl.slist_append [] content_type (presetup f h) in
      if appended
      then (ok (record { opt_http_header = content_type ∷ []; presetup_curl = f }), h')
      else (err runtime_error, h')

  unfoldable pub make_easy : Option (H → H) → H → Result (CurlWrapper H) × H
  unfolding append_content_type
  make_easy f h =
      let (initialised, h') = curl.easy_init h in
      if initialised then append_content_type f h' else (err runtime_error, curl.global_cleanup h')

  unfoldable pub make : Option (H → H) → H → Result (CurlWrapper H) × H
  unfolding make_easy
  make f h =
      let (error, h') = curl.global_init h in
      if error == 0 then make_easy f h' else (err runtime_error, h')

  unfoldable pub destroy : H → H
  destroy h = curl.global_cleanup (curl.easy_cleanup (curl.slist_free_all h))

  unfoldable pub set_body : Bytes → H → H
  set_body body h =
      if not (is_empty body)
      then curl.setopt (post_fields body) (curl.setopt (post_field_size (length body)) h)
      else curl.setopt (post_field_size 0) h

  unfoldable pub set_method : HttpMethod → H → H
  set_method post h = curl.setopt (set_post 1) h
  set_method put h = curl.setopt (custom_request (codes "PUT")) (curl.setopt (set_nobody 0) h)
  set_method delete h =
      curl.setopt (custom_request (codes "DELETE"))
        (curl.setopt (set_nobody 0) (curl.setopt (set_http_get 0) h))

  -- What `performHttpRequest` does in front of `curl_easy_perform`.
  unfoldable pub prepare : HttpMethod → Bytes → Bytes → CurlWrapper H → H → H
  unfolding set_body set_method
  prepare method uri body w h = set_method method (
      set_body body (
        presetup w.presetup_curl (
          curl.setopt (http_header w.opt_http_header)
            (curl.setopt (url (c_str uri)) (curl.easy_reset h)))))

  -- The negated error code, or the response code.
  unfoldable pub answer : ℕ × H → ℤ × H
  answer (error, h) = (if error == 0 then pos (curl.response_code h) else negsuc (error - 1), h)

  unfoldable pub perform_http_request : HttpMethod → Bytes → Bytes → CurlWrapper H → H → ℤ × H
  unfolding answer
  perform_http_request method uri body w h = answer (curl.perform (prepare method uri body w h))

  unfoldable pub add_http_header : Bytes → CurlWrapper H → H → Bool × CurlWrapper H × H
  add_http_header header w h =
      let (appended, h') = curl.slist_append w.opt_http_header (c_str header) h in
      if appended
      then (true, record w { opt_http_header = w.opt_http_header ++ c_str header ∷ [] }, h')
      else (false, w, h')
