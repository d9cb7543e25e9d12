-- ===== src/Fd/Tests.antt =====
-- Runs of internal/fd/fd.go on small inputs, and its theorems at inputs that meet their hypotheses.
use pgdesign.Base.{
  Text, List, [], ◌∷◌, true, String, bytes, elem, ◌≡◌, refl, inl, In, ◌↔◌, text_eq, map,
}
use pgdesign.Fd.{FuncDep}
use pgdesign.Fd.Closure.{closure}
use pgdesign.Fd.Closure.Derives.{Determines, given, by_fd}
use pgdesign.Fd.Closure.Fixpoint.{closure_correct}
use pgdesign.Fd.Cover.{minimal_cover}
use pgdesign.Fd.Cover.Implied.{Equivalent}
use pgdesign.Fd.Cover.Reduced.{reduced, reduced-Equivalent}
use pgdesign.Fd.Cover.Redundant.{Twice, minimal_cover_sound, minimal_cover-drops-Twice}

abbrev names : List String → List Text
names = map bytes

abbrev dep : List String → List String → FuncDep
dep x y = record { determinant = names x; dependent = names y; source = [] }

-- A -> B, B -> C
abbrev chained : List FuncDep
chained = dep ("a" ∷ []) ("b" ∷ []) ∷ dep ("b" ∷ []) ("c" ∷ []) ∷ []

closure-chained : closure (names ("a" ∷ [])) chained ≡ names ("a" ∷ "b" ∷ "c" ∷ [])
unfolding closure
closure-chained = refl

-- Within a pass the result is not sorted, and the binary search misses `b`: it comes twice.
closure-duplicate :
    closure (names ("m" ∷ [])) (dep ("m" ∷ []) ("z" ∷ "b" ∷ []) ∷ dep ("m" ∷ []) ("b" ∷ []) ∷ [])
    ≡ names ("b" ∷ "b" ∷ "m" ∷ "z" ∷ [])
unfolding closure
closure-duplicate = refl

-- A -> B twice
abbrev repeated : List FuncDep
repeated = dep ("a" ∷ []) ("b" ∷ []) ∷ dep ("a" ∷ []) ("b" ∷ []) ∷ []

minimal_cover-chained : minimal_cover chained ≡ chained
unfolding minimal_cover
minimal_cover-chained = refl

minimal_cover-repeated : minimal_cover repeated ≡ []
unfolding minimal_cover
minimal_cover-repeated = refl

-- A -> B, A -> C, AB -> C: no dependency is given twice and there is no cycle, and A -> C is lost.
minimal_cover-loses :
    minimal_cover
      (dep ("a" ∷ []) ("b" ∷ []) ∷ dep ("a" ∷ []) ("c" ∷ []) ∷ dep ("a" ∷ "b" ∷ []) ("c" ∷ []) ∷ [])
    ≡ dep ("a" ∷ []) ("b" ∷ []) ∷ []
unfolding minimal_cover
minimal_cover-loses = refl

closure_correct_example :
    (elem (bytes "c") (closure (names ("a" ∷ [])) chained) ≡ true)
    ↔ Determines chained (names ("a" ∷ [])) (bytes "c")
closure_correct_example = closure_correct (names ("a" ∷ [])) chained (bytes "c")

reduced-Equivalent_example : Equivalent chained (reduced chained)
reduced-Equivalent_example = reduced-Equivalent chained

In-cover : In (dep ("a" ∷ []) ("b" ∷ [])) (minimal_cover chained)
unfolding minimal_cover
In-cover = inl refl

derived : Determines (minimal_cover chained) (names ("a" ∷ [])) (bytes "b")
unfolding elem text_eq
derived = by_fd (dep ("a" ∷ []) ("b" ∷ [])) In-cover (λ c q. given q) refl

minimal_cover_sound_example : Determines chained (names ("a" ∷ [])) (bytes "b")
minimal_cover_sound_example = minimal_cover_sound chained (names ("a" ∷ [])) (bytes "b") derived

twice : Twice (dep ("a" ∷ []) ("b" ∷ [])) (reduced repeated)
unfolding minimal_cover
twice = inl (refl, inl refl)

minimal_cover-drops-Twice_example : ¬ In (dep ("a" ∷ []) ("b" ∷ [])) (minimal_cover repeated)
minimal_cover-drops-Twice_example =
    minimal_cover-drops-Twice repeated (dep ("a" ∷ []) ("b" ∷ [])) (bytes "b") refl twice
