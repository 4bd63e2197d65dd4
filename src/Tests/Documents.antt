-- ===== src/Tests/Documents.antt =====
-- Numerals and documents.
use quick_js_debugger.Prelude.{◌≡◌, ◌≢◌, refl, true, [], ◌∷◌, ◌++◌, some, arith}
use quick_js_debugger.Prelude.Int.{ℤ, pos, negsuc}
use quick_js_debugger.Text.Bytes.{codes, compare_bytes}
use quick_js_debugger.Text.Decimal.{nat_to_string, stoi, stoi-nat_to_string}
use quick_js_debugger.Json.Parse.{parse}
use quick_js_debugger.Json.Print.{serialize}
use quick_js_debugger.Json.Result.{ok, out_of_fuel}
use quick_js_debugger.Json.RoundTrip.Printable.{IsPrintable}
use quick_js_debugger.Json.RoundTrip.Values.{parse-serialize}
use quick_js_debugger.Json.Termination.{parse-ne-out_of_fuel}
use quick_js_debugger.Json.Value.{Value, bool, number, string, array, nil, cons, object, end, field}
use quick_js_debugger.Tests.Machine.{whole_floats, whole_floats-IsExact}

stoi-nat_to_string_example : stoi (nat_to_string 12 ++ codes ":7:0") ≡ some (pos 12)
stoi-nat_to_string_example = stoi-nat_to_string 12 (codes ":7:0") refl (omega arith)

-- {"id": 12, "params": [true, "a\"b"]}
abbrev document : Value ℤ
document = object (
    field (codes "id") (number (negsuc 11)) (
      field (codes "params") (array (cons (bool true) (cons (string (b'a' ∷ b'"' ∷ 10 ∷ [])) nil)))
        end))

document-IsPrintable : IsPrintable document
unfolding IsPrintable compare_bytes
document-IsPrintable =
    ((refl, (tt, tt)), ((negsuc 11, refl, (omega arith, omega arith)), ((tt, (tt, tt)), tt)))

parse-serialize_example : parse (serialize document) ≡ ok document
parse-serialize_example = parse-serialize document whole_floats-IsExact document-IsPrintable

parse-ne-out_of_fuel_example : parse {N = ℤ} (codes "{\"a\":[1,") ≢ out_of_fuel
parse-ne-out_of_fuel_example = parse-ne-out_of_fuel (codes "{\"a\":[1,")
