-- ===== src/Gen/Printed.antt =====
-- The output formats of examples/chronoid-gen.c on valid KSUIDs.
use libchronoid.Prelude.{
  ℕ, ◌≡◌, refl, ap, ◌∙◌, List, ◌++◌, Bool, Option, some, ◌>>=◌, true, false, length,
}
use libchronoid.Ksuid.Types.{Ksuid, IsKsuid}
use libchronoid.Ksuid.Id.{ksuid_format}
use libchronoid.Ksuid.Base62.{base62_encode}
use libchronoid.Ksuid.Base62.Encode.{base62_encode-digits}
use libchronoid.Ksuid.Batch.Agree.{text}
use libchronoid.Prelude.Tables.{codes}
use libchronoid.Gen.Stdio.{Calendar}
use libchronoid.Gen.Print.{
  Format, string, inspect, time, timestamp, payload, raw, projected, print_string, print_inspect,
  print_one_ksuid,
}

some-bind :
    (m : Option (List ℕ)) {t : List ℕ} (f : List ℕ → List ℕ)
    → m ≡ some t
    → (p : List ℕ) × ((m >>= (λ s. some (f s))) ≡ some p)
some-bind m {t} f e = (f t, ap (λ (m : Option (List ℕ)). m >>= (λ s. some (f s))) e)

projected-some :
    {Tm : Type 0} (calendar : Calendar Tm) (s : List ℕ) (f : Format) (id : Ksuid)
    → length s ≡ 27
    → IsKsuid id
    → (p : List ℕ) × (projected calendar s f id ≡ some p)
unfolding print_string print_inspect ksuid_format
projected-some calendar s string id size k =
    some-bind (base62_encode s id.b) _ (base62_encode-digits s id.b size k)
projected-some calendar s inspect id size k =
    some-bind (base62_encode s id.b) _ (base62_encode-digits s id.b size k)
projected-some calendar s time id size k = (_, refl)
projected-some calendar s timestamp id size k = (_, refl)
projected-some calendar s payload id size k = (_, refl)
projected-some calendar s raw id size k = (_, refl)

-- A valid KSUID can be printed in every format.
pub print_one_ksuid-some :
    {Tm : Type 0} (calendar : Calendar Tm) (s : List ℕ) (f : Format) (id : Ksuid) (verbose : Bool)
    → length s ≡ 27
    → IsKsuid id
    → (p : List ℕ) × (print_one_ksuid calendar s f id verbose ≡ some p)
unfolding print_one_ksuid ksuid_format
print_one_ksuid-some calendar s f id false size k = projected-some calendar s f id size k
print_one_ksuid-some calendar s f id true size k =
    let (p, printed) = projected-some calendar s f id size k in
    (
      text id ++ (codes ": " ++ p),
      ap
            (λ (m : Option (List ℕ)).
              m >>= (λ t. projected calendar s f id >>= (λ p. some (t ++ (codes ": " ++ p)))))
            (base62_encode-digits s id.b size k)
          ∙ ap (λ (m : Option (List ℕ)). m >>= (λ p. some (text id ++ (codes ": " ++ p)))) printed,
    )
