-- ===== src/Core/TextSerializer/Families.antt =====
-- Families are read back from the text of a scrape.
use prometheus_cpp.Common.{
  ℕ, length, List, [], ◌∷◌, map, Option, none, some, ◌>>=?◌, Bytes, Lacks, All,
}
use prometheus_cpp.Double.{Double}
use prometheus_cpp.Core.ClientMetric.{MetricFamily}
use prometheus_cpp.Core.TextSerializer.Samples.{all_samples_of}
use prometheus_cpp.Core.TextSerializer.Metrics.{IsReadable}
use prometheus_cpp.Core.TextSerializer.Family.{FamilyText, written_type, read_family}

-- As many families as there are numbers of samples, and nothing behind them.
unfoldable pub read_families : ℕ → List ℕ → Bytes → Option (List FamilyText)
unfolding read_family
read_families fuel [] [] = some []
read_families fuel [] (c ∷ lines) = none
read_families fuel (n ∷ ns) lines = read_family fuel n lines >>=? λ (family, rest).
    read_families fuel ns rest >>=? λ families. some (family ∷ families)

-- A family that the format can hold.
pub record IsReadableFamily {D : Type 0} (fuel : ℕ) (print : D → Bytes) (family : MetricFamily D)
    : Type 0 where
  pub no_spaces : Lacks b' ' family.name
  pub one_line : Lacks b'\n' family.name
  pub help_line : Lacks b'\n' family.help
  pub metrics : All (IsReadable fuel print family) family.metric

module _ {D : Type 0} ⦃d : Double D⦄ where
  -- What the text of a family should say.
  abbrev pub text_of : (D → Bytes) → MetricFamily D → FamilyText
  text_of print family = record {
    name = family.name;
    help = family.help;
    type = written_type family.type;
    samples = all_samples_of print family family.metric;
  }

  abbrev pub numbers_of_samples : (D → Bytes) → List (MetricFamily D) → List ℕ
  numbers_of_samples print families =
      map (λ family. length (all_samples_of print family family.metric)) families
