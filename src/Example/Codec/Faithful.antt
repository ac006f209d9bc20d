-- ===== src/Example/Codec/Faithful.antt =====
-- The stand-in codec reads back what it writes.
use onym_discovery.Prelude.{
  ℕ, zero, suc, ◌≤◌, Bytes, true, false, none, [], ◌∷◌, ◌++◌, length, length-append, ◌≡◌, refl, ap,
  sym, ◌∙◌, arith,
}
use mathlib.Core.List.{append_assoc, append-nil}
use onym_discovery.Json.{
  unsigned, negative, float, Value, null, bool, number, string, array, object, Values, nil, cons,
  Members, end, member, events, events_values, events_members,
}
use onym_discovery.Example.Codec.{
  encode, encode_values, encode_members, split, unframe, head_of, decode, decode_values,
  decode_members, read, complaint, bit,
}

split-append : (s t : Bytes) → split (length s) (s ++ t) ≡ (s, t)
unfolding split
split-append [] t = refl
split-append (b ∷ s) t = rw (split-append s t) refl

unframe-frame : (s t : Bytes) → unframe (length s ∷ s ++ t) ≡ (s, t)
unfolding unframe
unframe-frame s t = split-append s t

mutual
  unfolding encode decode head_of bit events

  decode-encode :
      (f : ℕ) (v : Value) (t : Bytes)
      → length (encode v) ≤ f
      → decode f (encode v ++ t) ≡ (events v, t)
  decode-encode zero null t h = absurd (omega arith)
  decode-encode (suc f) null t h = refl
  decode-encode zero (bool b) t h = absurd (omega arith)
  decode-encode (suc f) (bool true) t h = refl
  decode-encode (suc f) (bool false) t h = refl
  decode-encode zero (number (unsigned n)) t h = absurd (omega arith)
  decode-encode (suc f) (number (unsigned n)) t h = refl
  decode-encode zero (number (negative n)) t h = absurd (omega arith)
  decode-encode (suc f) (number (negative n)) t h = refl
  decode-encode zero (number (float n)) t h = absurd (omega arith)
  decode-encode (suc f) (number (float n)) t h = refl
  decode-encode zero (string s) t h = absurd (omega arith)
  decode-encode (suc f) (string s) t h = rw (unframe-frame s t) refl
  decode-encode zero (array vs) t h = absurd (omega arith)
  decode-encode (suc f) (array vs) t h = rw (decode_values-encode f vs t (omega arith)) refl
  decode-encode zero (object ms) t h = absurd (omega arith)
  decode-encode (suc f) (object ms) t h = rw (decode_members-encode f ms t (omega arith)) refl

  decode_values-encode :
      (f : ℕ) (vs : Values) (t : Bytes)
      → length (encode_values vs) ≤ f
      → decode_values f (encode_values vs ++ t) ≡ (events_values vs, t)
  decode_values-encode zero nil t h = absurd (omega arith)
  decode_values-encode (suc f) nil t h = refl
  decode_values-encode zero (cons v vs) t h = absurd (omega arith)
  decode_values-encode (suc f) (cons v vs) t h = rw (append_assoc (encode v) (encode_values vs) t) (
      rw
        (decode-encode f v (encode_values vs ++ t)
          (omega (arith, length-append (encode v) (encode_values vs))))
        (rw
          (decode_values-encode f vs t (omega (arith, length-append (encode v) (encode_values vs))))
          refl))

  decode_members-encode :
      (f : ℕ) (ms : Members) (t : Bytes)
      → length (encode_members ms) ≤ f
      → decode_members f (encode_members ms ++ t) ≡ (events_members ms, t)
  decode_members-encode zero end t h = absurd (omega arith)
  decode_members-encode (suc f) end t h = refl
  decode_members-encode zero (member k v ms) t h = absurd (omega arith)
  decode_members-encode (suc f) (member k v ms) t h =
      let sizes = length-append (k ++ encode v) (encode_members ms) in
      let sizes' = length-append k (encode v) in
      rw (append_assoc (k ++ encode v) (encode_members ms) t) (
        rw (append_assoc k (encode v) (encode_members ms ++ t)) (
          rw (unframe-frame k (encode v ++ (encode_members ms ++ t))) (
            rw (decode-encode f v (encode_members ms ++ t) (omega (arith, sizes, sizes')))
              (rw (decode_members-encode f ms t (omega (arith, sizes, sizes'))) refl))))

pub read-encode : (v : Value) → read (encode v) ≡ (events v, none)
unfolding read complaint
read-encode v =
    rw
      (ap (decode (suc (length (encode v)))) (sym (append-nil (encode v)))
        ∙ decode-encode (suc (length (encode v))) v [] (omega arith))
      refl
