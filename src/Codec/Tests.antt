-- ===== src/Codec/Tests.antt =====
-- The text forms of concrete numbers.
use document_insight.Prelude.{◌≡◌, refl, none, some}
use document_insight.Chunker.Text.{code_points}
use document_insight.Codec.Digits.{value_from, decimal_digits, hex_digits}
use document_insight.Codec.Decimal.{decimal_text, parse_int}
use document_insight.Codec.Uuid.{uuid_text, group}
use document_insight.Codec.Split.{split_once, read_digits}

decimal_text_test : decimal_text 1040 ≡ code_points "1040"
unfolding decimal_text decimal_digits
decimal_text_test = refl

parse_int_test : parse_int (code_points "12a") ≡ none
unfolding parse_int read_digits value_from
parse_int_test = refl

uuid_text_test : uuid_text 171 ≡ code_points "00000000-0000-0000-0000-0000000000ab"
unfolding uuid_text group hex_digits
uuid_text_test = refl

split_once_test : split_once 58 (code_points "1:2:3") ≡ some (code_points "1", code_points "2:3")
unfolding split_once
split_once_test = refl
