-- ===== src/Examples/Texts.antt =====
-- Numbers, their texts, and the keys of messages (utils/strings.go and queue/uTopic.go).
use uq.Prelude.{ℕ, ◌≡◌, refl, some, codes, arith}
use uq.Utils.Strings.{format_uint, parse_uint, itoa_quick}
use uq.Utils.Strings.Decimal.{parse_uint-format_uint, itoa_quick-format_uint}
use uq.Queue.Topic.Keys.{message_key-injective}

greatest_uint64 : parse_uint (format_uint 18446744073709551615) ≡ some 18446744073709551615
greatest_uint64 = parse_uint-format_uint 18446744073709551615 (omega arith)

itoa_quick-format_uint_example : itoa_quick 4097 ≡ format_uint 4097
itoa_quick-format_uint_example = itoa_quick-format_uint 4097

abbrev a_dozen : ℕ
a_dozen = 12

message_key-injective_example : a_dozen ≡ a_dozen
message_key-injective_example =
    message_key-injective (codes "t") a_dozen a_dozen (omega arith) (omega arith) refl
