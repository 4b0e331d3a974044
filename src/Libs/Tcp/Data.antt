-- ===== src/Libs/Tcp/Data.antt =====
-- What the HTTP parser is given of what a socket receives: `HTTPRequest` hands each array to
-- `Parser::Parse` (core/http.cc) as it is.
use mathlib.Core.List.{append-nil, append_assoc}
use no_js.Base.{
  ℕ, suc, ◌+◌, ◌-◌, ◌<◌, ◌≤◌, ◌≡◌, refl, ap, ◌∙◌, arith, [], ◌∷◌, ◌++◌, length, ok, fault,
  out_of_range, ◌⊎◌, inl, inr, ltb, Bool-cases,
}
use no_js.Base.Bytes.{Bytes, NoZero}
use no_js.Http.{parse_input}
use no_js.Http.Input.{parse_input-NoZero}
use no_js.Libs.Buffer.{alloc}
use no_js.Libs.Tcp.{received_buffer, read_size}

pub padded :
    (got : Bytes) (n : ℕ)
    → length got + suc n ≡ read_size
    → received_buffer got ≡ got ++ 0 ∷ alloc n
unfolding received_buffer alloc
padded got n e = let left : 1024 - length got ≡ suc n = omega arith in rw left refl

full : (got : Bytes) → length got ≡ read_size → received_buffer got ≡ got
unfolding received_buffer alloc
full got e = rw e (append-nil got)

with_zero :
    (got after : Bytes)
    → received_buffer (got ++ 0 ∷ after)
      ≡ got ++ 0 ∷ (after ++ alloc (read_size - length (got ++ 0 ∷ after)))
unfolding received_buffer
with_zero got after = append_assoc got (0 ∷ after) (alloc (read_size - length (got ++ 0 ∷ after)))

-- Of bytes without a 0 that a read of a socket gives, the parser of requests is given just these if
-- they are fewer than 1024; if they are 1024, the parser reads past the end of the array. Of bytes
-- with a 0, it is given those before the first 0, and the others are dropped.
pub parse_input-received_buffer :
    (got after : Bytes)
    → NoZero got
    → length got ≤ read_size
    → (((length got < read_size) × (parse_input (received_buffer got) ≡ ok got))
        ⊎ ((length got ≡ read_size) × (parse_input (received_buffer got) ≡ fault out_of_range)))
      × (parse_input (received_buffer (got ++ 0 ∷ after)) ≡ ok got)
parse_input-received_buffer got after zero_free small = (by_length, cut)
  where
    by_length :
        ((length got < read_size) × (parse_input (received_buffer got) ≡ ok got))
        ⊎ ((length got ≡ read_size) × (parse_input (received_buffer got) ≡ fault out_of_range))
    by_length = elim (Bool-cases (ltb (length got) read_size)) [
      | inl less ↦
          let e = padded got (1023 - length got) (ground (arith, less)) in
          inl (
            ground (arith, less),
            rw e (parse_input-NoZero got (alloc (1023 - length got)) zero_free).0,
          )
      | inr all ↦
          let whole : length got ≡ read_size = ground (arith, all) in
          inr (whole, rw (full got whole) (parse_input-NoZero got [] zero_free).1)
    ]

    cut : parse_input (received_buffer (got ++ 0 ∷ after)) ≡ ok got
    cut =
        ap parse_input (with_zero got after)
        ∙ (parse_input-NoZero got (after ++ alloc (read_size - length (got ++ 0 ∷ after)))
            zero_free).0
