-- ===== src/Uuidv7/Sequence/Draw.antt =====
-- What the sequence draws, and what it emits.
use libchronoid.Prelude.{
  ℕ, ◌^◌, ◌<◌, ◌≡◌, ◌≢◌, refl, sym, ap, ◌∙◌, subst, List, [], ◌++◌, arith, length, get_or, IsArray,
  build, build-get_or, append-nil, ◌<<◌, bit_or,
}
use libchronoid.Prelude.Int.{ℤ, pos, to_u64}
use libchronoid.Prelude.Bits.{bit_and_mask}
use libchronoid.Memory.{memcpy, memcpy-all}
use libchronoid.Platform.{Platform}
use libchronoid.Uuidv7.Types.{Uuidv7, IsUuidv7, Uuidv7Err, ok}
use libchronoid.Uuidv7.Id.{parts_bytes}
use libchronoid.Uuidv7.Id.Parts.{uuid_of, parts_bytes-digits}
use libchronoid.Uuidv7.Sequence.{
  Sequence, uuidv7_sequence_emit, draw_random, draw_counter, uuidv7_sequence_init, redraw,
}

emit_cells :
    (f : ℕ → ℕ) (ms c : ℕ) (rand_b : List ℕ)
    → (uuidv7_sequence_emit (record { b = build 16 f }) (pos ms) c rand_b).b
      ≡ parts_bytes (to_u64 (pos ms)) c rand_b ++ []
unfolding uuidv7_sequence_emit parts_bytes
emit_cells f ms c rand_b = refl

-- The sequence writes the layout that `chronoid_uuidv7_from_parts` does.
pub uuidv7_sequence_emit-uuid_of :
    (out : Uuidv7) (ms c : ℕ) (rand_b : List ℕ)
    → IsUuidv7 out
    → ms < 2 ^ 48
    → uuidv7_sequence_emit out (pos ms) c rand_b ≡ uuid_of ms c rand_b
uuidv7_sequence_emit-uuid_of out ms c rand_b k lt =
    ap (λ b. uuidv7_sequence_emit (record { b = b }) (pos ms) c rand_b)
      (sym (build-get_or out.b 16 0 k.size))
    ∙ ap (λ b. record { b = b })
        (emit_cells (λ i. get_or out.b i 0) ms c rand_b
          ∙ append-nil _
          ∙ ap (λ t. parts_bytes t c rand_b) {y = ms} (omega arith)
          ∙ parts_bytes-digits ms c rand_b)

module _ {W : Type 0} (platform : Platform W) where
  draw_random-ok :
      (buf : List ℕ) (n : ℕ) (w : W)
      → (draw_random platform buf n w).0 ≡ ok
      → (platform.fill_random buf n w).0 ≡ pos 0
  unfolding draw_random
  draw_random-ok buf n w e = ground arith

  draw_random-IsArray :
      (buf : List ℕ) (n : ℕ) (w : W)
      → length buf ≡ n
      → (draw_random platform buf n w).0 ≡ ok
      → IsArray n (draw_random platform buf n w).1
  unfolding draw_random
  draw_random-IsArray buf n w size e =
      rw (draw_random-ok buf n w e, draw_random)
        (platform.fills buf n w size (draw_random-ok buf n w e))

  draw_counter-lt :
      (two : List ℕ) (out : ℕ) (w : W)
      → (draw_counter platform two out w).0 ≡ ok
      → (draw_counter platform two out w).1 < 2 ^ 12
  unfolding draw_counter
  draw_counter-lt two out w e =
      let b = (draw_random platform two 2 w).1 in
      ground (arith, bit_and_mask 12 (bit_or (get_or b 0 0 << 8) (get_or b 1 0)))

  module _ (two tail : List ℕ) (counter : ℕ) (size : length tail ≡ 8) where
    -- A redraw succeeds when both draws do.
    drawn :
        (s : Sequence) (ms : ℤ) (w : W)
        → (redraw platform two tail counter s ms w).0 ≡ ok
        → let (e, _, w') = draw_random platform tail 8 w in
          (e ≡ ok) × ((draw_counter platform two counter w').0 ≡ ok)
    unfolding redraw
    drawn s ms w e = ground arith

    redrawn :
        (s : Sequence) (ms : ℤ) (w : W)
        → let (e, new_rand_b, w') = draw_random platform tail 8 w in
          e ≡ ok
          → (draw_counter platform two counter w').0 ≡ ok
          → (redraw platform two tail counter s ms w) ≡ (
            ok,
            record {
              last_ms = ms;
              counter = (draw_counter platform two counter w').1;
              rand_b = memcpy s.rand_b 0 new_rand_b 8;
            },
            (draw_counter platform two counter w').2,
          )
    unfolding redraw
    redrawn s ms w d c = rw (d, c, redraw) refl

    -- With a random source that returns 0 it does.
    pub redraw-draws :
        ((buf : List ℕ) (n : ℕ) (w : W) → (platform.fill_random buf n w).0 ≡ pos 0)
        → (s : Sequence) (ms : ℤ) (w : W) → (redraw platform two tail counter s ms w).0 ≡ ok
    unfolding draw_random draw_counter
    redraw-draws source s ms w =
        ap (λ (r : Uuidv7Err × Sequence × W). r.0)
          (redrawn s ms w (random tail 8 w) (count (draw_random platform tail 8 w).2))
      where
        random : (buf : List ℕ) (n : ℕ) (w : W) → (draw_random platform buf n w).0 ≡ ok
        random buf n w = rw (source buf n w, draw_random) refl

        count : (w : W) → (draw_counter platform two counter w).0 ≡ ok
        count w = rw (random two 2 w, draw_counter) refl

    pub redraw-ok :
        (s : Sequence) (ms : ℤ) (w : W)
        → (redraw platform two tail counter s ms w).0 ≡ ok
        → length s.rand_b ≡ 8
        → let s' = (redraw platform two tail counter s ms w).1 in
          (s'.last_ms ≡ ms) × (s'.counter < 2 ^ 12) × IsArray 8 s'.rand_b
    redraw-ok s ms w e k =
        let (d, c) = drawn s ms w e in
        let fresh = draw_random-IsArray tail 8 w size d in
        subst (λ (s' : Sequence). (s'.last_ms ≡ ms) × (s'.counter < 2 ^ 12) × IsArray 8 s'.rand_b)
          (sym (ap (λ r. r.1) (redrawn s ms w d c)))
          (
            refl,
            draw_counter-lt two counter (draw_random platform tail 8 w).2 c,
            subst (IsArray 8) (sym (memcpy-all s.rand_b _ 8 k fresh.size)) fresh,
          )

    pub redraw-untouched :
        (s : Sequence) (ms : ℤ) (w : W)
        → (redraw platform two tail counter s ms w).0 ≢ ok
        → (redraw platform two tail counter s ms w).1 ≡ s
    unfolding redraw
    redraw-untouched s ms w e = ground arith

    pub initialised :
        (s : Sequence) (w : W)
        → (uuidv7_sequence_init platform two tail counter s w).0 ≡ ok
        → let s' = (uuidv7_sequence_init platform two tail counter s w).1 in
          (s'.last_ms ≡ pos 0) × (s'.counter < 2 ^ 12) × IsArray 8 s'.rand_b
    unfolding uuidv7_sequence_init
    initialised s w e =
        let (c, d) = both in
        subst
          (λ (s' : Sequence). (s'.last_ms ≡ pos 0) × (s'.counter < 2 ^ 12) × IsArray 8 s'.rand_b)
          (sym (ap (λ (r : Uuidv7Err × Sequence × W). r.1) (made c d)))
          (refl, draw_counter-lt two counter w c, draw_random-IsArray tail 8 w1 size d)
      where
        w1 : W
        w1 = (draw_counter platform two counter w).2

        both :
            ((draw_counter platform two counter w).0 ≡ ok)
            × ((draw_random platform tail 8 w1).0 ≡ ok)
        both = ground arith

        made :
            (draw_counter platform two counter w).0 ≡ ok
            → (draw_random platform tail 8 w1).0 ≡ ok
            → uuidv7_sequence_init platform two tail counter s w ≡ (
              ok,
              record {
                last_ms = pos 0;
                counter = (draw_counter platform two counter w).1;
                rand_b = (draw_random platform tail 8 w1).1;
              },
              (draw_random platform tail 8 w1).2,
            )
        made c d = rw (c, d, uuidv7_sequence_init) refl
