-- ===== src/Pull/Exposer/Routes/Find.antt =====
-- `find_endpoint` where URIs are separate.
use prometheus_cpp.Common.{
  true, false, List, [], ◌∷◌, ◌++◌, none, some, Bytes, bytes_eq, bytes_eq_sound, bytes_eq_refl,
  if◌then◌else◌, ◌≡◌, refl, sym, ap, ◌∙◌, ◌⊎◌, inl, inr, Bool-cases, arith,
}
use prometheus_cpp.Pull.Endpoint.{Endpoint}
use prometheus_cpp.Pull.Exposer.{find_endpoint, change_endpoint}

-- No two endpoints have one URI.
unfoldable pub Separate : List Endpoint → Type 0
Separate [] = Unit
Separate (e ∷ es) = (find_endpoint e.uri es ≡ none) × Separate es

pub bytes_eq_cases :
    (a b : Bytes)
    → ((a ≡ b) × (bytes_eq a b ≡ true)) ⊎ ((bytes_eq a b ≡ false) × (bytes_eq b a ≡ false))
bytes_eq_cases a b = elim (Bool-cases (bytes_eq a b)) [
  | inl q ↦ inl (bytes_eq_sound a b q, q)
  | inr q ↦ elim (Bool-cases (bytes_eq b a)) [
    | inl q' ↦
        let e = bytes_eq_sound b a q' in
        let r = bytes_eq_refl a in
        let r' : bytes_eq a b ≡ true = rw (e) (bytes_eq_refl a) in absurd (grind arith)
    | inr q' ↦ inr (q, q')
  ]
]

pub find_endpoint-uri :
    (u : Bytes) (es : List Endpoint) (e : Endpoint) → find_endpoint u es ≡ some e → e.uri ≡ u
unfolding find_endpoint
find_endpoint-uri u [] e h = ground arith
find_endpoint-uri u (x ∷ es) e h = elim (Bool-cases (bytes_eq x.uri u)) [
  | inl q ↦ let s = bytes_eq_sound x.uri u q in ground arith
  | inr q ↦ find_endpoint-uri u es e (rw (q, find_endpoint) at h)
]

pub find_endpoint-append :
    (es : List Endpoint) (e : Endpoint)
    → find_endpoint e.uri es ≡ none
    → (u : Bytes)
    → find_endpoint u (es ++ e ∷ []) ≡ (if bytes_eq e.uri u then some e else find_endpoint u es)
unfolding find_endpoint
find_endpoint-append [] e h u = refl
find_endpoint-append (x ∷ es) e h u = elim (bytes_eq_cases x.uri e.uri) [
  | inl (_, q) ↦ absurd (let h' = rw (q, find_endpoint) at h in ground arith)
  | inr (q, q') ↦
      let ih = find_endpoint-append es e (rw (q, find_endpoint) at h) u in
      elim (bytes_eq_cases x.uri u) [
        | inl (r, p) ↦
            let o : bytes_eq e.uri u ≡ false = sym (ap (bytes_eq e.uri) r) ∙ q' in
            rw (find_endpoint, p, o) refl
        | inr (p, _) ↦ rw (find_endpoint, p) ih
      ]
]

pub find_endpoint-change :
    (uri : Bytes) (es : List Endpoint) (e e' : Endpoint)
    → find_endpoint uri es ≡ some e
    → e'.uri ≡ uri
    → (u : Bytes)
    → find_endpoint u (change_endpoint uri e' es)
      ≡ (if bytes_eq uri u then some e' else find_endpoint u es)
unfolding find_endpoint change_endpoint
find_endpoint-change uri [] e e' h k u = ground arith
find_endpoint-change uri (x ∷ es) e e' h k u = elim (bytes_eq_cases x.uri uri) [
  | inl (r, q) ↦ elim (Bool-cases (bytes_eq uri u)) [
    | inl p ↦ rw (find_endpoint, change_endpoint, q, k, p) refl
    | inr p ↦ rw (find_endpoint, change_endpoint, q, k, r, p) refl
  ]
  | inr (q, q') ↦
      let ih = find_endpoint-change uri es e e' (rw (q, find_endpoint) at h) k u in
      elim (bytes_eq_cases x.uri u) [
        | inl (r, p) ↦
            let o : bytes_eq uri u ≡ false = sym (ap (bytes_eq uri) r) ∙ q' in
            rw (find_endpoint, change_endpoint, q, p, o) refl
        | inr (p, _) ↦ rw (find_endpoint, change_endpoint, q, p) ih
      ]
]

pub append-Separate :
    (es : List Endpoint) (e : Endpoint)
    → find_endpoint e.uri es ≡ none
    → Separate es
    → Separate (es ++ e ∷ [])
unfolding find_endpoint Separate
append-Separate [] e h s = (refl, tt)
append-Separate (x ∷ es) e h s = elim (bytes_eq_cases x.uri e.uri) [
  | inl (_, q) ↦ absurd (let h' = rw (q, find_endpoint) at h in ground arith)
  | inr (q, q') ↦
      let h' = rw (q, find_endpoint) at h in
      (rw (find_endpoint-append es e h' x.uri, q') s.0, append-Separate es e h' s.1)
]

pub change-Separate :
    (uri : Bytes) (es : List Endpoint) (e e' : Endpoint)
    → find_endpoint uri es ≡ some e
    → e'.uri ≡ uri
    → Separate es
    → Separate (change_endpoint uri e' es)
unfolding find_endpoint change_endpoint Separate
change-Separate uri [] e e' h k s = tt
change-Separate uri (x ∷ es) e e' h k s = elim (bytes_eq_cases x.uri uri) [
  | inl (r, q) ↦ rw (change_endpoint, q, Separate) (rw (k, sym r) s.0, s.1)
  | inr (q, q') ↦
      let h' = rw (q, find_endpoint) at h in
      rw (change_endpoint, q, Separate)
        (
          rw (find_endpoint-change uri es e e' h' k x.uri, q') s.0,
          change-Separate uri es e e' h' k s.1,
        )
]
