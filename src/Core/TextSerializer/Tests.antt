-- ===== src/Core/TextSerializer/Tests.antt =====
-- A family of two counters, after core/tests/text_serializer_test.cc.
use prometheus_cpp.Common.{◌≡◌, refl, [], ◌∷◌, ◌++◌, Bytes, codes, pos, arith}
use prometheus_cpp.Double.Sample.{Number, fin, above, number_double}
use prometheus_cpp.Core.MetricType.{counter, gauge}
use prometheus_cpp.Core.ClientMetric.{ClientMetric, LabelPair, MetricFamily, empty_metric}
use prometheus_cpp.Core.TextSerializer.{serialize_family, serialize}
use prometheus_cpp.Core.TextSerializer.Newlines.{newlines}
use prometheus_cpp.Core.TextSerializer.Lines.{newlines-serialize_family}

-- A stand-in for the stream's printing.
abbrev print : Number → Bytes
print x = codes "64"

abbrev path : LabelPair
path = record { name = codes "path"; value = codes "C:\\a\"b\n" }

abbrev zone : LabelPair
zone = record { name = codes "zone"; value = codes "x" }

abbrev first : ClientMetric Number
first = record empty_metric { label = path ∷ zone ∷ []; counter = fin (pos 64) }

abbrev family : MetricFamily Number
family = record {
  name = codes "my_metric";
  help = codes "my metric help text";
  type = counter;
  metric = first ∷ record empty_metric { counter = above } ∷ [];
}

written :
    serialize print (family ∷ [])
    ≡ codes "# HELP my_metric my metric help text\n"
      ++ (codes "# TYPE my_metric counter\n"
          ++ (codes "my_metric{path=\"C:\\\\a\\\"b\\n\",zone=\"x\"} 64\n"
              ++ codes "my_metric +Inf\n"))
unfolding serialize
written = refl

newlines-serialize_family_example : newlines (serialize_family print family) ≡ 4
newlines-serialize_family_example =
    newlines-serialize_family print family (λ x. omega arith) (omega arith) (omega arith)
      (omega arith)

abbrev second : MetricFamily Number
second = record {
  name = codes "other";
  help = [];
  type = gauge;
  metric = record empty_metric { gauge = fin (pos 64) } ∷ [];
}
