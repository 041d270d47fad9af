-- ===== src/Push/CurlWrapper/Held.antt =====
-- What a curl wrapper holds of libcurl, after its constructor and its destructor.
use prometheus_cpp.Common.{
  ℕ, suc, ◌-◌, true, false, [], ◌∷◌, Option, Bytes, ◌==◌, Result, ok, err, runtime_error, ◌≡◌, ◌≢◌,
  ◌⊎◌, inl, inr, refl, ◌∙◌, Bool-cases, arith,
}
use prometheus_cpp.Push.CurlWrapper.{
  Curl, CurlWrapper, content_type, presetup, append_content_type, make_easy, make, destroy,
}

-- Initialisations of the library, easy handles and header lists that have not been given back.
pub record Held : Type 0 where
  pub inits : ℕ
  pub handles : ℕ
  pub lists : ℕ

-- As documented: a call that succeeds takes one, a call that fails takes none, and each clean-up gives one back.
pub record Tracks {H : Type 0} (curl : Curl H) (held : H → Held) : Type 0 where
  pub init_ok :
      (h : H)
      → (curl.global_init h).0 ≡ 0
      → held (curl.global_init h).1 ≡ record (held h) { inits = suc (held h).inits }
  pub init_failed : (h : H) → (curl.global_init h).0 ≢ 0 → held (curl.global_init h).1 ≡ held h
  pub easy_ok :
      (h : H)
      → (curl.easy_init h).0 ≡ true
      → held (curl.easy_init h).1 ≡ record (held h) { handles = suc (held h).handles }
  pub easy_failed : (h : H) → (curl.easy_init h).0 ≡ false → held (curl.easy_init h).1 ≡ held h
  pub append_ok :
      (t : Bytes) (h : H)
      → (curl.slist_append [] t h).0 ≡ true
      → held (curl.slist_append [] t h).1 ≡ record (held h) { lists = suc (held h).lists }
  pub append_failed :
      (t : Bytes) (h : H)
      → (curl.slist_append [] t h).0 ≡ false
      → held (curl.slist_append [] t h).1 ≡ held h
  pub global_cleaned :
      (h : H) → held (curl.global_cleanup h) ≡ record (held h) { inits = (held h).inits - 1 }
  pub easy_cleaned :
      (h : H) → held (curl.easy_cleanup h) ≡ record (held h) { handles = (held h).handles - 1 }
  pub freed :
      (h : H) → held (curl.slist_free_all h) ≡ record (held h) { lists = (held h).lists - 1 }

-- One of each, on top of what was held.
abbrev pub one_more : Held → Held
one_more x = record { inits = suc x.inits; handles = suc x.handles; lists = suc x.lists }

-- An initialisation and a handle on top of what was held.
abbrev pub leaked : Held → Held
leaked x = record x { inits = suc x.inits; handles = suc x.handles }

given_back :
    (x y : Held) → y ≡ record x { inits = suc x.inits } → record y { inits = y.inits - 1 } ≡ x
given_back x y e = rw (e) (ground arith)

both_held :
    (x y : Held)
    → y ≡ record x { inits = suc x.inits }
    → record y { handles = suc y.handles } ≡ leaked x
both_held x y e = rw (e) refl

list_held : (x y : Held) → y ≡ leaked x → record y { lists = suc y.lists } ≡ one_more x
list_held x y e = rw (e) refl

module _ {H : Type 0} (curl : Curl H) (held : H → Held) (t : Tracks curl held) where
  held-destroy : (h : H) (x : Held) → held h ≡ one_more x → held (destroy curl h) ≡ x
  unfolding destroy
  held-destroy h x e =
      rw
        (
          t.global_cleaned (curl.easy_cleanup (curl.slist_free_all h)),
          t.easy_cleaned (curl.slist_free_all h),
          t.freed h,
          e,
        )
        (ground arith)

  append-ok :
      (f : Option (H → H)) (h : H)
      → (curl.slist_append [] content_type (presetup f h)).0 ≡ true
      → append_content_type curl f h ≡ (
        ok (record { opt_http_header = content_type ∷ []; presetup_curl = f }),
        (curl.slist_append [] content_type (presetup f h)).1,
      )
  unfolding append_content_type
  append-ok f h q = rw (append_content_type, q) refl

  append_failed :
      (f : Option (H → H)) (h : H)
      → (curl.slist_append [] content_type (presetup f h)).0 ≡ false
      → append_content_type curl f h
        ≡ (err runtime_error, (curl.slist_append [] content_type (presetup f h)).1)
  unfolding append_content_type
  append_failed f h q = rw (append_content_type, q) refl

  easy-ok :
      (f : Option (H → H)) (h : H)
      → (curl.easy_init h).0 ≡ true
      → make_easy curl f h ≡ append_content_type curl f (curl.easy_init h).1
  unfolding make_easy
  easy-ok f h q = rw (make_easy, q) refl

  easy_failed :
      (f : Option (H → H)) (h : H)
      → (curl.easy_init h).0 ≡ false
      → make_easy curl f h ≡ (err runtime_error, curl.global_cleanup (curl.easy_init h).1)
  unfolding make_easy
  easy_failed f h q = rw (make_easy, q) refl

  init-ok :
      (f : Option (H → H)) (h : H)
      → ((curl.global_init h).0 == 0) ≡ true
      → make curl f h ≡ make_easy curl f (curl.global_init h).1
  unfolding make
  init-ok f h q = rw (make, q) refl

  init_failed :
      (f : Option (H → H)) (h : H)
      → ((curl.global_init h).0 == 0) ≡ false
      → make curl f h ≡ (err runtime_error, (curl.global_init h).1)
  unfolding make
  init_failed f h q = rw (make, q) refl

  -- The states behind the first and the second initialisation.
  abbrev pub first : H → H
  first h = (curl.global_init h).1

  abbrev pub second : H → H
  second h = (curl.easy_init (first h)).1

  -- How the constructor ends, and what is held then.
  abbrev pub Outcome : Option (H → H) → H → Result (CurlWrapper H) × H → Type 0
  Outcome f h r =
      ((w : CurlWrapper H) × (r.0 ≡ ok w)
        × (held r.1 ≡ one_more (held h))
        × (held (destroy curl r.1) ≡ held h))
      ⊎ ((((curl.global_init h).0 ≢ 0) ⊎ ((curl.easy_init (first h)).0 ≡ false))
          × (r.0 ≡ err runtime_error)
          × (held r.1 ≡ held h))
      ⊎ (((curl.slist_append [] content_type (presetup f (second h))).0 ≡ false)
          × (r.0 ≡ err runtime_error)
          × (held r.1 ≡ leaked (held h)))

  -- The constructor ends in one of three ways. It returns, and holds an initialisation, an easy handle and a header
  -- list, all of which the destructor gives back; or one of the two initialisations fails, and it throws
  -- `std::runtime_error` and holds nothing; or the header list cannot be made, and it throws and still holds the
  -- initialisation and the handle, which nothing gives back. The hypotheses: libcurl takes and gives back as
  -- documented, and the set-up does neither.
  pub make-Outcome :
      (f : Option (H → H)) (h : H)
      → ((k : H) → held (presetup f k) ≡ held k)
      → Outcome f h (make curl f h)
  make-Outcome f h p = elim (Bool-cases ((curl.global_init h).0 == 0)) [
    | inr q ↦
        let ne : (curl.global_init h).0 ≢ 0 = ground arith in
        rw (init_failed f h q) (inr (inl (inl ne, refl, t.init_failed h ne)))
    | inl q ↦
        let eq : (curl.global_init h).0 ≡ 0 = ground arith in
        let one = t.init_ok h eq in
        elim (Bool-cases (curl.easy_init (first h)).0) [
          | inr e ↦
              rw (init-ok f h q, easy_failed f (first h) e)
                (inr (
                  inl (
                    inr e,
                    refl,
                    t.global_cleaned (second h)
                        ∙ given_back (held h) _ (t.easy_failed (first h) e ∙ one),
                  )))
          | inl e ↦
              let two = t.easy_ok (first h) e ∙ both_held (held h) _ one in
              elim (Bool-cases (curl.slist_append [] content_type (presetup f (second h))).0) [
                | inr a ↦
                    rw (init-ok f h q, easy-ok f (first h) e, append_failed f (second h) a)
                      (inr (
                        inr (
                          a,
                          refl,
                          t.append_failed content_type (presetup f (second h)) a
                              ∙ p (second h)
                              ∙ two,
                        )))
                | inl a ↦
                    let three =
                      t.append_ok content_type (presetup f (second h)) a
                      ∙ list_held (held h) _ (p (second h) ∙ two) in
                    rw (init-ok f h q, easy-ok f (first h) e, append-ok f (second h) a)
                      (inl (_, refl, three, held-destroy _ (held h) three))
              ]
        ]
  ]
