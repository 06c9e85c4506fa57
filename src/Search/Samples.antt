-- ===== src/Search/Samples.antt =====
-- What Python knows of the code points of ASCII, for tests; the letters are small ones.
use wise_way.Prelude.{◌-◌, ◌||◌, ◌==◌}
use wise_way.Common.Texts.{is_between}
use wise_way.Search.Words.{Unicode}

abbrev pub ascii : Unicode
ascii = record {
  is_digit = λ c. is_between b'0' c b'9';
  digit_value = λ c. c - b'0';
  is_word = λ c. is_between b'0' c b'9' || is_between b'a' c b'z' || c == b'_';
  casefold = λ t. t;
}
