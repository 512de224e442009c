-- ===== src/Tests/Texts.antt =====
-- Encodings, numbers and delimited texts, at small inputs.
use simlib.Common.{
  ◌≡◌, refl, true, false, [], ◌∷◌, ◌++◌, Bytes, codes, arith, some, if◌then◌else◌, ◌==◌, all_of,
  List,
}
use mathlib.Core.List.{flatten}
use mathlib.Core.Option
use simlib.Tests.{bytes_of}
use simlib.StringTraits.{is_digit_str}
use simlib.StringTransform.{encode_uri, decode_uri, html_escape, json_stringify}
use simlib.StringTransform.Uri.{decode_uri-encode_uri}
use simlib.StringTransform.Escapes.{
  html_read, text, is_html_safe, html_read-html_escape, read_json_string,
  read_json_string-json_stringify,
}
use simlib.Number.{signed, str2num_signed}
use simlib.Number.Value.{value}
use simlib.Number.Parse.{str2num_signed-value, in_limit}
use simlib.RequestUriParser.{extract_next_arg, extract_query}
use simlib.RequestUriParser.Laws.{uri, extract_args, extract_args-extract_query}

abbrev phrase : Bytes
phrase = codes "a+b <c>&\"d\""

decode_uri-encode_uri_example : decode_uri (encode_uri phrase) ≡ phrase
decode_uri-encode_uri_example = decode_uri-encode_uri phrase (bytes_of phrase refl)

html_read-html_escape_example :
    (html_read text (html_escape phrase) ≡ some phrase)
    × (all_of is_html_safe (html_escape phrase) ≡ true)
html_read-html_escape_example = html_read-html_escape phrase

read_json_string-json_stringify_example :
    read_json_string (json_stringify (phrase ∷ codes "x\n" ∷ []) ++ codes ",")
    ≡ some (flatten (phrase ∷ codes "x\n" ∷ []), codes ",")
read_json_string-json_stringify_example =
    read_json_string-json_stringify (phrase ∷ codes "x\n" ∷ []) (codes ",")
      (unfold flatten in bytes_of (flatten (phrase ∷ codes "x\n" ∷ [])) refl)

str2num_signed-value_example : str2num_signed 127 (codes "-128") ≡ (
    if b'-' == b'-'
    then Option.map
        (signed true)
        (in_limit 128 (is_digit_str (codes "128")) (value 0 (codes "128")))
    else Option.map
        (signed false)
        (in_limit 127 (is_digit_str (codes "-128")) (value 0 (codes "-128"))))
str2num_signed-value_example = str2num_signed-value 127 b'-' (codes "128") (omega arith)

abbrev args : List Bytes
args = codes "api" ∷ [] ∷ codes "problem" ∷ []

extract_args-extract_query_example :
    (extract_args 3 (codes "/api//problem?id=1") ≡ (args, codes "?id=1"))
    × (extract_args 3 (codes "/api//problem") ≡ (args, []))
    × (extract_next_arg (codes "?id=1") ≡ ([], codes "?id=1"))
    × (extract_query (codes "?id=1") ≡ (codes "id=1", []))
    × ((a : Bytes)
        → extract_query (uri (a ∷ args) (codes "?id=1")) ≡ ([], uri (a ∷ args) (codes "?id=1")))
extract_args-extract_query_example =
    extract_args-extract_query args (codes "id=1") (refl, (refl, (refl, tt)))
