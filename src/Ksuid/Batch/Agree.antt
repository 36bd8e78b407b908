-- ===== src/Ksuid/Batch/Agree.antt =====
-- The scalar loop of chronoid/ksuid/encode_batch.c and the kernel of encode_avx2.c write the same
-- texts.
use libchronoid.Prelude.{
  ℕ, zero, suc, ◌+◌, ◌*◌, ◌≤◌, ◌≡◌, refl, sym, ap, ap₂, ◌∙◌, List, [], ◌∷◌, ◌++◌, map, map-map,
  map-append, append_assoc, append-nil, arith, length, length-map, length-append, length-take,
  length-drop, All, All-map, All-append, take, drop, flatten, some, ◌>>=◌, take-append-drop,
  drop-drop, drop-length,
}
use libchronoid.Digits.{value, digits, length-digits}
use libchronoid.Simd.Laws.{replicate-map}
use libchronoid.Simd.Wide.{set1_epi64x}
use libchronoid.Ksuid.Types.{Ksuid, IsKsuid}
use libchronoid.Ksuid.Id.{ksuid_format}
use libchronoid.Ksuid.Base62.Tables.{b62_char}
use libchronoid.Ksuid.Base62.Encode.{base62_encode-digits, limbs, limbs-AllBelow, limbs-value}
use libchronoid.Ksuid.Batch.{
  div62_m, divide_limbs, scatter, columns, load_limbs, load_pack, ksuid_string_batch_scalar,
}
use libchronoid.Ksuid.Batch.Lanes.{pack, IsLane, divide_limbs-divide}
use libchronoid.Ksuid.Batch.Columns.{
  IsColumn, quot, rem, lane, lane-digits, step, step-IsColumn, chars, scatter-chars,
}

abbrev pub mag : List ℕ
mag = set1_epi64x div62_m

started : (s : List ℕ × List ℕ) → IsColumn s → IsLane (s.0, 0)
started s h = (h.0.1, omega arith)

-- One pass over the limbs of four lanes.
pass :
    (ss : List (List ℕ × List ℕ))
    → length ss ≡ 4
    → All IsColumn ss
    → divide_limbs mag (pack 5 (map (λ s. s.0) ss)) (set1_epi64x 0)
      ≡ (pack 5 (map (λ s. quot s.0) ss), map (λ s. rem s.0) ss)
pass ss size h =
    ap₂ (λ ls r. divide_limbs mag (pack 5 ls) r) (sym (map-map (λ s. s.0) (λ s. (s.0, 0)) ss))
      (replicate-map 0 ss 4 size ∙ sym (map-map (λ s. s.1) (λ s. (s.0, 0)) ss))
    ∙ divide_limbs-divide 5 (map (λ s. (s.0, 0)) ss) (length-map ss _ ∙ size)
        (All-map IsColumn IsLane (λ s. (s.0, 0)) started ss h)
    ∙ ap₂ (λ (e : List (List ℕ)) (r : List ℕ). (e, r)) (ap (pack 5) (map-map _ (λ s. (s.0, 0)) ss))
        (map-map _ (λ s. (s.0, 0)) ss)

abbrev limbs_of : List (List ℕ × List ℕ) → List (List ℕ)
limbs_of ss = pack 5 (map (λ s. s.0) ss)

columns-lane :
    (n : ℕ) (lo hi : List (List ℕ × List ℕ)) (rest : List ℕ)
    → n ≤ 27
    → length lo ≡ 4
    → length hi ≡ 4
    → All IsColumn lo
    → All IsColumn hi
    → columns n mag (limbs_of lo) (limbs_of hi) (chars (lo ++ hi) ++ rest)
      ≡ flatten (map (λ s. lane n s.0 s.1) (lo ++ hi)) ++ rest
unfolding columns
columns-lane zero lo hi rest le sl sh hl hh = refl
columns-lane (suc n) lo hi rest le sl sh hl hh =
    ap₂
      (λ (d e : List (List ℕ) × List ℕ).
        columns n mag d.0 e.0 (scatter n 0 (d.1 ++ e.1) (chars (lo ++ hi) ++ rest)))
      (pass lo sl hl) (pass hi sh hh)
    ∙ ap₂
        (λ ls hs.
          columns n mag (pack 5 ls) (pack 5 hs) (
            scatter n 0 (map (λ s. rem s.0) lo ++ map (λ s. rem s.0) hi)
              (chars (lo ++ hi) ++ rest)))
        (sym (map-map (λ s. s.0) (step n) lo)) (sym (map-map (λ s. s.0) (step n) hi))
    ∙ ap (columns n mag (limbs_of (map (step n) lo)) (limbs_of (map (step n) hi))) (
        ap (λ r. scatter n 0 r (chars (lo ++ hi) ++ rest)) (sym (map-append (λ s. rem s.0) lo hi))
        ∙ scatter-chars n 0 (lo ++ hi) [] rest (omega arith) refl (All-append IsColumn lo hi hl hh)
        ∙ ap (λ t. chars t ++ rest) (map-append (step n) lo hi))
    ∙ columns-lane n (map (step n) lo) (map (step n) hi) rest (omega arith) (length-map lo _ ∙ sl)
        (length-map hi _ ∙ sh) (All-map IsColumn IsColumn (step n) (step-IsColumn n) lo hl)
        (All-map IsColumn IsColumn (step n) (step-IsColumn n) hi hh)
    ∙ ap (λ t. flatten (map (λ s. lane n s.0 s.1) t) ++ rest) (sym (map-append (step n) lo hi))
    ∙ ap (λ t. flatten t ++ rest) (map-map (λ s. lane n s.0 s.1) (step n) (lo ++ hi))

-- The text of an identifier: 27 digits in base 62.
abbrev pub text : Ksuid → List ℕ
text id = map b62_char (digits 62 27 (value 256 id.b))

length-text : (id : Ksuid) → length (text id) ≡ 27
length-text id =
    length-map (digits 62 27 (value 256 id.b)) b62_char ∙ length-digits 62 27 (value 256 id.b)

-- The texts of all in a row.
abbrev pub texts : List Ksuid → List ℕ
texts ids = flatten (map text ids)

pub length-texts : (ids : List Ksuid) → length (texts ids) ≡ 27 * length ids
length-texts [] = refl
length-texts (id ∷ ids) =
    omega (arith, length-append (text id) (texts ids), length-text id, length-texts ids)

pub ksuid_string_batch_scalar-texts :
    (ids : List Ksuid) (out : List ℕ)
    → All IsKsuid ids
    → 27 * length ids ≤ length out
    → ksuid_string_batch_scalar ids out ≡ some (texts ids ++ drop (27 * length ids) out)
unfolding ksuid_string_batch_scalar ksuid_format
ksuid_string_batch_scalar-texts [] out h size =
    ap (λ n. some (drop n out)) {x = 0} {y = 27 * 0} (omega arith)
ksuid_string_batch_scalar-texts (id ∷ ids) out h size =
    ap
      (λ s. s >>= (λ s. ksuid_string_batch_scalar ids (drop 27 out) >>= (λ rest. some (s ++ rest))))
      (base62_encode-digits (take 27 out) id.b (omega (arith, length-take 27 out)) h.0)
    ∙ ap (λ r. r >>= (λ rest. some (text id ++ rest)))
        (ksuid_string_batch_scalar-texts ids (drop 27 out) h.1 (omega (arith, length-drop 27 out)))
    ∙ ap some (
        ap (λ t. text id ++ (texts ids ++ t))
          (drop-drop (27 * length ids) 27 out
            ∙ ap (λ k. drop k out) {x = 27 + 27 * length ids} {y = 27 * suc (length ids)}
                (omega arith))
        ∙ sym (append_assoc (text id) (texts ids) (drop (27 * suc (length ids)) out)))

-- The lanes of identifiers, with their places in the output.
abbrev lanes_of : List Ksuid → List ℕ → List (List ℕ × List ℕ)
lanes_of [] out = []
lanes_of (id ∷ ids) out = (limbs id.b, take 27 out) ∷ lanes_of ids (drop 27 out)

drop-drop_27 : (k : ℕ) (out : List ℕ) → drop (27 * k) (drop 27 out) ≡ drop (27 * suc k) out
drop-drop_27 k out =
    drop-drop (27 * k) 27 out
    ∙ ap (λ k. drop k out) {x = 27 + 27 * k} {y = 27 * suc k} (omega arith)

chars-lanes_of :
    (ids : List Ksuid) (out : List ℕ) → chars (lanes_of ids out) ++ drop (27 * length ids) out ≡ out
chars-lanes_of [] out = ap (λ k. drop k out) {x = 27 * 0} {y = 0} (omega arith)
chars-lanes_of (id ∷ ids) out =
    append_assoc (take 27 out) (chars (lanes_of ids (drop 27 out)))
      (drop (27 * suc (length ids)) out)
    ∙ ap (λ t. take 27 out ++ (chars (lanes_of ids (drop 27 out)) ++ t))
        (sym (drop-drop_27 (length ids) out))
    ∙ ap (λ t. take 27 out ++ t) (chars-lanes_of ids (drop 27 out))
    ∙ take-append-drop 27 out

lanes_of-IsColumn :
    (ids : List Ksuid) (out : List ℕ)
    → All IsKsuid ids
    → 27 * length ids ≤ length out
    → All IsColumn (lanes_of ids out)
lanes_of-IsColumn [] out h size = tt
lanes_of-IsColumn (id ∷ ids) out h size = (
  ((refl, limbs-AllBelow id.b h.0), omega (arith, length-take 27 out)),
  lanes_of-IsColumn ids (drop 27 out) h.1 (omega (arith, length-drop 27 out)),
)

lane-text :
    (id : Ksuid) (c : List ℕ) → IsKsuid id → length c ≡ 27 → lane 27 (limbs id.b) c ≡ text id
lane-text id c h size =
    lane-digits 27 (limbs id.b) c (refl, limbs-AllBelow id.b h) (omega arith)
    ∙ ap₂ (λ v t. map b62_char (digits 62 27 v) ++ t) (limbs-value id.b h)
        (drop-length c 27 (omega arith))
    ∙ append-nil (text id)

lanes_of-texts :
    (ids : List Ksuid) (out : List ℕ)
    → All IsKsuid ids
    → 27 * length ids ≤ length out
    → flatten (map (λ s. lane 27 s.0 s.1) (lanes_of ids out)) ≡ texts ids
lanes_of-texts [] out h size = refl
lanes_of-texts (id ∷ ids) out h size =
    ap₂ ◌++◌ (lane-text id (take 27 out) h.0 (omega (arith, length-take 27 out)))
      (lanes_of-texts ids (drop 27 out) h.1 (omega (arith, length-drop 27 out)))

pub group-texts :
    (a b c d e f g i : Ksuid) (out : List ℕ)
    → let ids = a ∷ b ∷ c ∷ d ∷ e ∷ f ∷ g ∷ i ∷ [] in
      All IsKsuid ids
      → 216 ≤ length out
      → columns 27 mag (load_pack (a ∷ b ∷ c ∷ d ∷ [])) (load_pack (e ∷ f ∷ g ∷ i ∷ [])) out
        ≡ texts ids ++ drop 216 out
unfolding load_limbs
group-texts a b c d e f g i out h size =
    let ids = a ∷ b ∷ c ∷ d ∷ e ∷ f ∷ g ∷ i ∷ [] in
    let lo = lanes_of (a ∷ b ∷ c ∷ d ∷ []) out in
    let hi = lanes_of (e ∷ f ∷ g ∷ i ∷ []) (drop 27 (drop 27 (drop 27 (drop 27 out)))) in
    let all = lanes_of-IsColumn ids out h (omega (arith, size)) in
    ap (columns 27 mag (limbs_of lo) (limbs_of hi)) (sym (chars-lanes_of ids out))
    ∙ columns-lane 27 lo hi (drop 216 out) (omega arith) refl refl
        (all.0, (all.1.0, (all.1.1.0, (all.1.1.1.0, tt)))) all.1.1.1.1
    ∙ ap (λ t. t ++ drop 216 out) (lanes_of-texts ids out h (omega (arith, size)))
