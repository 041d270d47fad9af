-- ===== src/Core/CheckNames/Regex.antt =====
-- What core/src/check_names.cc accepts, against the regular expressions of its comments.
use prometheus_cpp.Common.{
  ℕ, ◌≤◌, ◌≡◌, refl, ◌↔◌, ◌⊎◌, Bool, true, false, List, [], ◌∷◌, ◌++◌, arith, Bytes, codes,
  bytes_eq, bytes_eq_sound, take, find_if_not, is_empty, All,
}
use prometheus_cpp.Core.MetricType.{MetricType, summary, histogram}
use prometheus_cpp.Core.CheckNames.{
  is_digit, name_starts_valid, valid_metric_character, valid_label_character, check_metric_name,
  is_reserved_label, check_label_name,
}

-- A class such as `[a-z_]`, by its ranges.
abbrev pub Class : Type 0
Class = List (ℕ × ℕ)

abbrev pub InClass : Class → ℕ → Type 0
InClass [] c = ⊥
InClass ((lo, hi) ∷ ranges) c = ((lo ≤ c) × (c ≤ hi)) ⊎ InClass ranges c

-- The expression `[first][later]*` on the whole of a text.
abbrev pub Matches : Class → Class → Bytes → Type 0
Matches first later [] = ⊥
Matches first later (c ∷ s) = InClass first c × All (InClass later) s

-- [a-zA-Z_:] and [a-zA-Z0-9_:], [a-zA-Z_] and [a-zA-Z0-9_].
abbrev pub metric_first : Class
metric_first = (b'a', b'z') ∷ (b'A', b'Z') ∷ (b'_', b'_') ∷ (b':', b':') ∷ []

abbrev pub metric_later : Class
metric_later = (b'a', b'z') ∷ (b'A', b'Z') ∷ (b'0', b'9') ∷ (b'_', b'_') ∷ (b':', b':') ∷ []

abbrev pub label_first : Class
label_first = (b'a', b'z') ∷ (b'A', b'Z') ∷ (b'_', b'_') ∷ []

abbrev pub label_later : Class
label_later = (b'a', b'z') ∷ (b'A', b'Z') ∷ (b'0', b'9') ∷ (b'_', b'_') ∷ []

abbrev pub StartsReserved : Bytes → Type 0
StartsReserved name = (rest : Bytes) × (name ≡ codes "__" ++ rest)

metric_character_iff : (c : ℕ) → (valid_metric_character c ≡ true) ↔ InClass metric_later c
unfolding valid_metric_character
metric_character_iff c = ground arith

label_character_iff : (c : ℕ) → (valid_label_character c ≡ true) ↔ InClass label_later c
unfolding valid_label_character
label_character_iff c = ground arith

find_if_not_iff :
    (p : ℕ → Bool) (P : ℕ → Type 0)
    → ((c : ℕ) → (p c ≡ true) ↔ P c)
    → (s : Bytes) → (is_empty (find_if_not p s) ≡ true) ↔ All P s
find_if_not_iff p P h [] = (λ _. tt, λ _. refl)
find_if_not_iff p P h (c ∷ s) = ground (arith, h c, find_if_not_iff p P h s)

reserved_iff :
    (c : ℕ) (s : Bytes) → (bytes_eq (take 2 (c ∷ s)) (codes "__") ≡ true) ↔ StartsReserved (c ∷ s)
reserved_iff c [] = (λ h. ground arith, λ (rest, e). cc)
reserved_iff c (d ∷ s) = (λ h. (s, ground arith), λ (rest, e). ground arith)

starts_iff :
    (c : ℕ) (s : Bytes)
    → (name_starts_valid (c ∷ s) ≡ true) ↔ ((is_digit c ≡ false) × ¬ StartsReserved (c ∷ s))
unfolding name_starts_valid
starts_iff c s = ground (arith, reserved_iff c s)

-- A metric name is accepted exactly when it matches `[a-zA-Z_:][a-zA-Z0-9_:]*` and does not begin
-- with two underscores.
pub check_metric_name_iff :
    (name : Bytes)
    → (check_metric_name name ≡ true)
      ↔ (Matches metric_first metric_later name × ¬ StartsReserved name)
unfolding check_metric_name
check_metric_name_iff [] = ground arith
check_metric_name_iff (c ∷ s) =
    ground (arith, starts_iff c s, find_if_not_iff _ _ metric_character_iff (c ∷ s))

-- The label that the serializer itself adds to a metric of the type.
abbrev pub AddedLabel : MetricType → Bytes → Type 0
AddedLabel histogram name = name ≡ codes "le"
AddedLabel summary name = name ≡ codes "quantile"
AddedLabel _ name = ⊥

added_iff :
    (type : MetricType) (name : Bytes) → (is_reserved_label type name ≡ true) ↔ AddedLabel type name
unfolding is_reserved_label
added_iff histogram name = (bytes_eq_sound name (codes "le"), λ e. rw e)
added_iff summary name = (bytes_eq_sound name (codes "quantile"), λ e. rw e)
added_iff _ name = ground arith

-- A label name is accepted for a metric type exactly when it matches `[a-zA-Z_][a-zA-Z0-9_]*`,
-- does not begin with two underscores, and is not the label that the serializer adds to that type
-- (`le` for a histogram, `quantile` for a summary).
pub check_label_name_iff :
    (name : Bytes) (type : MetricType)
    → (check_label_name name type ≡ true)
      ↔ (Matches label_first label_later name × (¬ StartsReserved name) × (¬ AddedLabel type name))
unfolding check_label_name
check_label_name_iff [] type = ground arith
check_label_name_iff (c ∷ s) type =
    ground (
      arith,
      starts_iff c s,
      added_iff type (c ∷ s),
      find_if_not_iff _ _ label_character_iff (c ∷ s),
    )
