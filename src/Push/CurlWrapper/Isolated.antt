-- ===== src/Push/CurlWrapper/Isolated.antt =====
-- Which settings are in force when a request is performed.
use prometheus_cpp.Common.{List, [], ◌∷◌, ◌++◌, append_assoc, Bytes, codes, c_str, length, ◌≡◌}
use prometheus_cpp.Push.CurlWrapper.{
  HttpMethod, post, put, delete, Setting, url, http_header, post_field_size, post_fields, set_post,
  set_nobody, set_http_get, custom_request, Curl, CurlWrapper, presetup, set_body, set_method,
  prepare,
}

-- As documented: `curl_easy_reset` takes all options of the handle back, and `curl_easy_setopt` sets one more.
pub record Remembers {H : Type 0} (curl : Curl H) (options : H → List Setting) : Type 0 where
  pub reset : (h : H) → options (curl.easy_reset h) ≡ []
  pub set : (s : Setting) (h : H) → options (curl.setopt s h) ≡ options h ++ s ∷ []

abbrev pub body_settings : Bytes → List Setting
body_settings [] = post_field_size 0 ∷ []
body_settings (c ∷ body) = post_field_size (length (c ∷ body)) ∷ post_fields (c ∷ body) ∷ []

abbrev pub method_settings : HttpMethod → List Setting
method_settings post = set_post 1 ∷ []
method_settings put = set_nobody 0 ∷ custom_request (codes "PUT") ∷ []
method_settings delete = set_http_get 0 ∷ set_nobody 0 ∷ custom_request (codes "DELETE") ∷ []

module _ {H : Type 0} (curl : Curl H) (options : H → List Setting)
    (r : Remembers curl options) where
  set_body-options :
      (body : Bytes) (h : H) → options (set_body curl body h) ≡ options h ++ body_settings body
  unfolding set_body
  set_body-options [] h = r.set (post_field_size 0) h
  set_body-options (c ∷ body) h =
      rw (r.set (post_fields (c ∷ body)), r.set (post_field_size (length (c ∷ body))))
        (simp append_assoc)

  set_method-options :
      (method : HttpMethod) (h : H)
      → options (set_method curl method h) ≡ options h ++ method_settings method
  unfolding set_method
  set_method-options post h = r.set (set_post 1) h
  set_method-options put h =
      rw (r.set (custom_request (codes "PUT")), r.set (set_nobody 0)) (simp append_assoc)
  set_method-options delete h =
      rw (r.set (custom_request (codes "DELETE")), r.set (set_nobody 0), r.set (set_http_get 0))
        (simp append_assoc)

  -- The settings with which a request is performed are those of its URI, the header list, the set-up, its body and its
  -- method, in this order, and no others: nothing is left of an earlier request or of the state before. The hypotheses:
  -- libcurl resets and sets options as documented, and the set-up sets the same options each time.
  pub prepare-options :
      (method : HttpMethod) (uri body : Bytes) (w : CurlWrapper H) (h : H) (pre : List Setting)
      → ((k : H) → options (presetup w.presetup_curl k) ≡ options k ++ pre)
      → options (prepare curl method uri body w h)
        ≡ (url (c_str uri) ∷ http_header w.opt_http_header ∷ pre)
          ++ (body_settings body ++ method_settings method)
  unfolding prepare
  prepare-options method uri body w h pre p =
      rw
        (
          set_method-options method,
          set_body-options body,
          p,
          r.set (http_header w.opt_http_header),
          r.set (url (c_str uri)),
          r.reset h,
        )
        (simp append_assoc)
