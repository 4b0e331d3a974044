-- ===== src/Http/Headers.antt =====
-- The object of headers that `onHeaderComplete` is given (core/http.h).
use no_js.Base.{
  ℕ, ◌<◌, Option, none, some, List, [], ◌∷◌, map, length, ◌≡◌, refl, sym, ◌∙◌, arith, true, false,
  fault, out_of_range, Returns, ◌>>=◌, if◌then◌else◌, Bool-cases, inl, inr,
}
use no_js.Base.Bytes.{Bytes, bytes_eq, bytes_eq_refl, eq_of_bytes_eq, c_str}
use no_js.Http.{HeadersEnd, headers_call, set_property, header_object, handler_call}
use no_js.Http.Message.{HeaderPieces, field_pieces, value_pieces, message_info}

-- `object[k]`.
unfoldable pub get_property : Bytes → List (Bytes × Bytes) → Option Bytes
get_property k [] = none
get_property k ((j, v) ∷ o) = if bytes_eq j k then some v else get_property k o

-- The value of the last header with the name, of those that follow and of those before.
unfoldable pub last_value : Bytes → List (Bytes × Bytes) → Option Bytes → Option Bytes
last_value k [] before = before
last_value k ((j, v) ∷ kvs) before =
    last_value k kvs (if bytes_eq (c_str j) k then some (c_str v) else before)

bytes_eq-ne : (i j k : Bytes) → bytes_eq i j ≡ false → bytes_eq i k ≡ true → bytes_eq j k ≡ true → ⊥
bytes_eq-ne i j k other ik jk =
    let e : i ≡ j = eq_of_bytes_eq i k ik ∙ sym (eq_of_bytes_eq j k jk) in
    let same : bytes_eq i j ≡ true = rw e (bytes_eq_refl j) in cc (sym same ∙ other)

get_property-set_property :
    (k j v : Bytes) (o : List (Bytes × Bytes))
    → get_property k (set_property j v o) ≡ (if bytes_eq j k then some v else get_property k o)
unfolding get_property set_property
get_property-set_property k j v [] = refl
get_property-set_property k j v ((i, w) ∷ o) = elim (Bool-cases (bytes_eq i j)) [
  | inl same ↦ rw (same, eq_of_bytes_eq i j same) (ground arith)
  | inr other ↦
      rw other (ground (arith, get_property-set_property k j v o, bytes_eq-ne i j k other))
]

abbrev pub fields : List (Bytes × Bytes) → List Bytes
fields = map (λ kv. kv.0)

abbrev pub values : List (Bytes × Bytes) → List Bytes
values = map (λ kv. kv.1)

header_object_from :
    (kvs : List (Bytes × Bytes)) (o : List (Bytes × Bytes))
    → Returns
        (λ r. (k : Bytes) → get_property k r ≡ last_value k kvs (get_property k o))
        (header_object (fields kvs) (values kvs) o)
unfolding header_object last_value
header_object_from [] o = (o, refl, λ k. refl)
header_object_from ((j, v) ∷ kvs) o =
    let (r, e, h) = header_object_from kvs (set_property (c_str j) (c_str v) o) in
    (r, e, λ k. rw (← get_property-set_property k (c_str j) (c_str v) o) (h k))

-- When each field has its value, the object has every field, with the last value that is given for
-- its name, and no other; names and values end at their first 0.
pub header_object-get_property :
    (kvs : List (Bytes × Bytes))
    → Returns
        (λ r. (k : Bytes) → get_property k r ≡ last_value k kvs none)
        (header_object (fields kvs) (values kvs) [])
unfolding get_property
header_object-get_property kvs = header_object_from kvs []

-- More fields than values: the loop reads past the end of the values.
pub header_object_overrun :
    (ks vs : List Bytes) (o : List (Bytes × Bytes))
    → length vs < length ks
    → header_object ks vs o ≡ fault out_of_range
unfolding header_object
header_object_overrun [] vs o h = absurd (omega arith)
header_object_overrun (k ∷ ks) [] o h = refl
header_object_overrun (k ∷ ks) (v ∷ vs) o h = header_object_overrun ks vs _ (omega arith)

-- A message whose fields come in more pieces than its values makes `onHeaderComplete` read past the
-- end of the values, whatever the headers are.
pub handler_call_split_fields :
    (begun : ℕ) (us : List Bytes) (hs : List HeaderPieces) (h : HeadersEnd)
    → length (value_pieces hs) < length (field_pieces hs)
    → handler_call (headers_call (message_info begun us hs h)) ≡ fault out_of_range
unfolding handler_call message_info
handler_call_split_fields begun us hs h short =
    rw (header_object_overrun (field_pieces hs) (value_pieces hs) [] short, ◌>>=◌) refl
