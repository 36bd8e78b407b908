-- ===== src/Uuidv7/Batch/Kernels.antt =====
-- The scalar loop of chronoid/uuidv7/hex_batch.c and the kernel of hex_avx2.c write the same texts.
use libchronoid.Prelude.{
  ℕ, suc, ◌+◌, ◌*◌, ◌≤◌, ◌≡◌, refl, subst, sym, ap, ap₂, ◌∙◌, List, [], ◌∷◌, ◌++◌, build,
  build-get_or, get_or, drop, map, append_assoc, arith, length, length-append, length-take,
  length-drop, All, take, flatten, drop-drop, IsArray,
}
use libchronoid.Simd.{zip_with, srli_epi16, set1_epi8}
use libchronoid.Arch.{Arch, sse2}
use libchronoid.Uuidv7.Types.{Uuidv7, IsUuidv7}
use libchronoid.Uuidv7.Hex.{hex_encode_lower_ssse3, splice, hex_encode_lower}
use libchronoid.Uuidv7.Hex.Encode.{hex_text, hex_encode_lower-hex_text}
use libchronoid.Uuidv7.Hex.Canonical.{hex_text-IsArray}
use libchronoid.Uuidv7.Id.Text.{format-hex_text}
use libchronoid.Uuidv7.Batch.{hex32_avx2, dash_splice, uuidv7_string_batch_scalar}

abbrev Encodes : (h k o p q r a b c d rest : List ℕ) → Type 0
Encodes h k o p q r a b c d rest =
    let filled = hex32_avx2 h (a ++ b) ++ hex32_avx2 k (c ++ d) in
    dash_splice o filled
      ++ (dash_splice p (drop 32 filled)
          ++ (dash_splice q (drop 64 filled) ++ (dash_splice r (drop 96 filled) ++ rest)))
    ≡ hex_encode_lower_ssse3 o a
      ++ (hex_encode_lower_ssse3 p b
          ++ (hex_encode_lower_ssse3 q c ++ (hex_encode_lower_ssse3 r d ++ rest)))

-- One round of the bulk loop, on arrays given cell by cell, is the SSSE3 encoder for each identifier.
group_cells :
    (h k o p q r a b c d : ℕ → ℕ) (rest : List ℕ)
    → Encodes
        (build 64 h)
        (build 64 k)
        (build 36 o)
        (build 36 p)
        (build 36 q)
        (build 36 r)
        (build 16 a)
        (build 16 b)
        (build 16 c)
        (build 16 d)
        rest
unfolding hex32_avx2 dash_splice zip_with srli_epi16 hex_encode_lower_ssse3 splice set1_epi8
group_cells h k o p q r a b c d rest = refl

-- What holds of arrays given cell by cell holds of arrays.
by_cells :
    (n : ℕ) (P : List ℕ → Type 0) (xs : List ℕ)
    → length xs ≡ n
    → ((f : ℕ → ℕ) → P (build n f))
    → P xs
by_cells n P xs size p = subst P (build-get_or xs n 0 size) (p (λ i. get_or xs i 0))

group-ssse3 :
    (h k o p q r a b c d rest : List ℕ)
    → length h ≡ 64
    → length k ≡ 64
    → length o ≡ 36
    → length p ≡ 36
    → length q ≡ 36
    → length r ≡ 36
    → length a ≡ 16
    → length b ≡ 16
    → length c ≡ 16
    → length d ≡ 16
    → Encodes h k o p q r a b c d rest
group-ssse3 h k o p q r a b c d rest s_h s_k s_o s_p s_q s_r s_a s_b s_c s_d =
    by_cells 64 (λ h. Encodes h k o p q r a b c d rest) h s_h
      (λ f_h.
        by_cells 64 (λ k. Encodes (build 64 f_h) k o p q r a b c d rest) k s_k
          (λ f_k.
            by_cells 36 (λ o. Encodes (build 64 f_h) (build 64 f_k) o p q r a b c d rest) o s_o
              (λ f_o.
                by_cells 36
                  (λ p. Encodes (build 64 f_h) (build 64 f_k) (build 36 f_o) p q r a b c d rest) p
                  s_p
                  (λ f_p.
                    by_cells 36
                      (λ q.
                        Encodes (build 64 f_h) (build 64 f_k) (build 36 f_o) (build 36 f_p) q r a b
                          c d rest)
                      q s_q
                      (λ f_q.
                        by_cells 36
                          (λ r.
                            Encodes (build 64 f_h) (build 64 f_k) (build 36 f_o) (build 36 f_p)
                              (build 36 f_q) r a b c d rest)
                          r s_r
                          (λ f_r.
                            by_cells 16
                              (λ a.
                                Encodes (build 64 f_h) (build 64 f_k) (build 36 f_o) (build 36 f_p)
                                  (build 36 f_q) (build 36 f_r) a b c d rest)
                              a s_a
                              (λ f_a.
                                by_cells 16
                                  (λ b.
                                    Encodes (build 64 f_h) (build 64 f_k) (build 36 f_o)
                                      (build 36 f_p) (build 36 f_q) (build 36 f_r) (build 16 f_a) b
                                      c d rest)
                                  b s_b
                                  (λ f_b.
                                    by_cells 16
                                      (λ c.
                                        Encodes (build 64 f_h) (build 64 f_k) (build 36 f_o)
                                          (build 36 f_p) (build 36 f_q) (build 36 f_r)
                                          (build 16 f_a) (build 16 f_b) c d rest)
                                      c s_c
                                      (λ f_c.
                                        by_cells 16
                                          (λ d.
                                            Encodes (build 64 f_h) (build 64 f_k) (build 36 f_o)
                                              (build 36 f_p) (build 36 f_q) (build 36 f_r)
                                              (build 16 f_a) (build 16 f_b) (build 16 f_c) d rest)
                                          d s_d
                                          (λ f_d.
                                            group_cells f_h f_k f_o f_p f_q f_r f_a f_b f_c f_d
                                              rest))))))))))

-- The texts of all in a row.
abbrev pub texts : List Uuidv7 → List ℕ
texts ids = flatten (map (λ id. hex_text id.b) ids)

pub length-texts : (ids : List Uuidv7) → All IsUuidv7 ids → length (texts ids) ≡ 36 * length ids
length-texts [] h = refl
length-texts (id ∷ ids) h =
    let first = hex_text-IsArray id.b h.0 in
    omega (arith, length-append (hex_text id.b) (texts ids), first.size, length-texts ids h.1)

pub uuidv7_string_batch_scalar-texts :
    (arch : Arch) (ids : List Uuidv7) (out : List ℕ)
    → All IsUuidv7 ids
    → 36 * length ids ≤ length out
    → uuidv7_string_batch_scalar arch ids out ≡ texts ids ++ drop (36 * length ids) out
unfolding uuidv7_string_batch_scalar
uuidv7_string_batch_scalar-texts arch [] out h size =
    ap (λ n. drop n out) {x = 0} {y = 36 * 0} (omega arith)
uuidv7_string_batch_scalar-texts arch (id ∷ ids) out h size =
    ap₂ ◌++◌ (format-hex_text arch id (take 36 out) h.0 (omega (arith, length-take 36 out))) (
      uuidv7_string_batch_scalar-texts arch ids (drop 36 out) h.1
        (omega (arith, length-drop 36 out)))
    ∙ ap (λ t. hex_text id.b ++ (texts ids ++ t))
        (drop-drop (36 * length ids) 36 out
          ∙ ap (λ k. drop k out) {x = 36 + 36 * length ids} {y = 36 * suc (length ids)}
              (omega arith))
    ∙ sym (append_assoc (hex_text id.b) (texts ids) (drop (36 * suc (length ids)) out))

ssse3-hex_text :
    (out bs : List ℕ)
    → length out ≡ 36
    → IsArray 16 bs
    → hex_encode_lower_ssse3 out bs ≡ hex_text bs
unfolding hex_encode_lower
ssse3-hex_text out bs size h = hex_encode_lower-hex_text out bs size h sse2

-- The same texts, from one round.
pub group-texts :
    (hex out : List ℕ) (a b c d : Uuidv7) (rest : List ℕ)
    → let filled = hex32_avx2 (take 64 hex) (a.b ++ b.b) ++ hex32_avx2 (drop 64 hex) (c.b ++ d.b) in
      length hex ≡ 128
      → 144 ≤ length out
      → All IsUuidv7 (a ∷ b ∷ c ∷ d ∷ [])
      → dash_splice (take 36 out) filled
          ++ (dash_splice (take 36 (drop 36 out)) (drop 32 filled)
              ++ (dash_splice (take 36 (drop 72 out)) (drop 64 filled)
                  ++ (dash_splice (take 36 (drop 108 out)) (drop 96 filled) ++ rest)))
        ≡ hex_text a.b ++ (hex_text b.b ++ (hex_text c.b ++ (hex_text d.b ++ rest)))
group-texts hex out a b c d rest hex_size size (ha, (hb, (hc, (hd, _)))) =
    group-ssse3 (take 64 hex) (drop 64 hex) (take 36 out) (take 36 (drop 36 out))
      (take 36 (drop 72 out)) (take 36 (drop 108 out)) a.b b.b c.b d.b rest
      (omega (arith, length-take 64 hex, hex_size)) (omega (arith, length-drop 64 hex, hex_size))
      (window 0 (omega arith)) (window 36 (omega arith)) (window 72 (omega arith))
      (window 108 (omega arith)) ha.size hb.size hc.size hd.size
    ∙ ap₂ ◌++◌ (ssse3-hex_text (take 36 out) a.b (window 0 (omega arith)) ha) (
        ap₂ ◌++◌ (ssse3-hex_text (take 36 (drop 36 out)) b.b (window 36 (omega arith)) hb) (
          ap₂ ◌++◌ (ssse3-hex_text (take 36 (drop 72 out)) c.b (window 72 (omega arith)) hc) (
            ap (λ t. t ++ rest)
              (ssse3-hex_text (take 36 (drop 108 out)) d.b (window 108 (omega arith)) hd))))
  where
    window : (k : ℕ) → k + 36 ≤ length out → length (take 36 (drop k out)) ≡ 36
    window k le = omega (arith, length-take 36 (drop k out), length-drop k out)
