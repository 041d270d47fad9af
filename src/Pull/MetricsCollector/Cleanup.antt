-- ===== src/Pull/MetricsCollector/Cleanup.antt =====
-- Taking expired pointers out of the list changes nothing that is collected.
use prometheus_cpp.Common.{
  ℕ, true, false, List, [], ◌∷◌, ◌++◌, some, ◌>>=?◌, ◌≡◌, refl, sym, ap, ◌∙◌, same_rest, Bool-cases,
  inl, inr,
}
use prometheus_cpp.Core.Collectable.{Collectables, IsStable}
use prometheus_cpp.Pull.MetricsCollector.{collect_metrics, cleanup_stale_pointers}

module _ {W D : Type 0} (c : Collectables W D) where
  collect-expired :
      (i : ℕ) (is : List ℕ) (w : W)
      → c.alive i w ≡ false
      → collect_metrics c (i ∷ is) w ≡ collect_metrics c is w
  unfolding collect_metrics
  collect-expired i is w h = rw (h, collect_metrics) refl

  collect-alive :
      (i : ℕ) (is : List ℕ) (w : W)
      → c.alive i w ≡ true
      → collect_metrics c (i ∷ is) w ≡ (
          c.collect i w >>=? λ (ms, w').
          collect_metrics c is w' >>=? λ (rest, w''). some (ms ++ rest, w''))
  unfolding collect_metrics
  collect-alive i is w h = rw (h, collect_metrics) refl

  collect-cleanup_at :
      (is : List ℕ) (v w : W)
      → IsStable c
      → ((j : ℕ) → c.alive j w ≡ c.alive j v)
      → collect_metrics c (cleanup_stale_pointers c is v) w ≡ collect_metrics c is w
  collect-cleanup_at [] v w stable same = refl
  collect-cleanup_at (i ∷ is) v w stable same = elim (Bool-cases (c.alive i w)) [
    | inr h ↦
        let gone = sym (same i) ∙ h in
        rw (gone) (collect-cleanup_at is v w stable same ∙ sym (collect-expired i is w h))
    | inl h ↦
        let here = sym (same i) ∙ h in
        rw (here, collect-alive i is w h, collect-alive i (cleanup_stale_pointers c is v) w h)
          (same_rest (c.collect i w) _ _ (λ r q.
            ap (λ o. o >>=? λ (rest, w''). some (r.0 ++ rest, w''))
              (collect-cleanup_at is v r.1 stable (λ j. stable.kept i j w r.1 r.0 q ∙ same j))))
  ]

  -- Expired pointers in the list do not count: with them taken out, a scrape collects the same families, leaves
  -- the same state, and returns just as often. The hypothesis: a collection ends the life of no object.
  collect-cleanup :
      IsStable c
      → (is : List ℕ) (w : W)
      → collect_metrics c (cleanup_stale_pointers c is w) w ≡ collect_metrics c is w
  collect-cleanup stable is w = collect-cleanup_at is w w stable (λ j. refl)
