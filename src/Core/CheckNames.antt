-- ===== src/Core/CheckNames.antt =====
-- core/src/check_names.cc. A `char` is its byte; every test is on ASCII ranges, which a byte above
-- 127 (a negative `char`) fails either way.
pub mod Regex
mod Tests
use prometheus_cpp.Common.{
  ℕ, Bool, true, false, ◌&&◌, ◌||◌, List, [], ◌∷◌, Bytes, codes, bytes_eq, take, leb, ◌==◌,
  if◌then◌else◌, find_if_not, is_empty,
}
use prometheus_cpp.Core.MetricType.{MetricType, counter, gauge, summary, untyped, histogram, info}

pub is_alpha_numeric : ℕ → Bool
is_alpha_numeric c =
    (leb b'0' c && leb c b'9') || ((leb b'a' c && leb c b'z') || (leb b'A' c && leb c b'Z'))

pub is_digit : ℕ → Bool
is_digit c = leb b'0' c && leb c b'9'

-- `name.compare(0, 2, "__")` compares the first two bytes, or fewer where the name is shorter.
pub name_starts_valid : Bytes → Bool
unfolding is_digit
name_starts_valid [] = false
name_starts_valid (c ∷ rest) =
    if is_digit c then false else if bytes_eq (take 2 (c ∷ rest)) (codes "__") then false else true

pub valid_metric_character : ℕ → Bool
unfolding is_alpha_numeric
valid_metric_character c = is_alpha_numeric c || (c == b'_' || c == b':')

pub valid_label_character : ℕ → Bool
unfolding is_alpha_numeric
valid_label_character c = is_alpha_numeric c || c == b'_'

unfoldable pub check_metric_name : Bytes → Bool
unfolding name_starts_valid valid_metric_character
check_metric_name name =
    if name_starts_valid name then is_empty (find_if_not valid_metric_character name) else false

-- The label that the serializer adds to a metric of this type.
pub is_reserved_label : MetricType → Bytes → Bool
is_reserved_label histogram name = bytes_eq name (codes "le")
is_reserved_label summary name = bytes_eq name (codes "quantile")
is_reserved_label _ name = false

unfoldable pub check_label_name : Bytes → MetricType → Bool
unfolding name_starts_valid valid_label_character is_reserved_label
check_label_name name type =
    if name_starts_valid name
    then if is_reserved_label type name
      then false
      else is_empty (find_if_not valid_label_character name)
    else false
