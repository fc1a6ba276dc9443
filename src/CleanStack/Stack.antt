-- ===== src/CleanStack/Stack.antt =====
-- `Push` and `Pop` are those of a stack, on the slice and its count.
use elemental_cli.Base.{
  ℕ, zero, suc, ◌+◌, ◌-◌, ◌≤◌, ◌≡◌, refl, ◌∙◌, ap, List, [], ◌∷◌, ◌++◌, reverse, length, take,
  take-all, length-take, length-append, take-suc, arith, get_elem?, some,
}
use elemental_cli.CleanStack.{CleanJob, CleanStack, Popped, nil, job, push, pop}
use mathlib.Core.List.{reverse-append}

module _ {ℓ} {S : Type ℓ} where
  -- The slice holds at least `count` jobs.
  abbrev pub IsValid : CleanStack S → Type 0
  IsValid c = c.count ≤ length c.jobs

  -- The stack that the slice and the count stand for, its top first.
  abbrev pub stack : CleanStack S → List (CleanJob S)
  stack c = reverse (take c.count c.jobs)

  length-push :
      (j : CleanJob S) (c : CleanStack S) → IsValid c → length (push j c).jobs ≡ c.count + 1
  unfolding push
  length-push j c v =
      length-append (take c.count c.jobs) (j ∷ []) ∙ omega (arith, length-take c.count c.jobs v)

  -- A pushed job is the new top of the stack, over all that was there, and the slice stays valid.
  pub stack-push :
      (j : CleanJob S) (c : CleanStack S)
      → IsValid c
      → IsValid (push j c) × (stack (push j c) ≡ j ∷ stack c)
  unfolding push
  stack-push j c v = (
    omega (arith, length-push j c v),
    ap reverse (take-all (c.count + 1) _ (omega (arith, length-push j c v)))
        ∙ reverse-append (take c.count c.jobs) (j ∷ []),
  )

  -- What `Pop` does of a stack: nil and no change if it is empty, and else its top and the rest.
  abbrev pub PopOf : List (CleanJob S) → CleanStack S → Popped S × CleanStack S → Type ℓ
  PopOf [] c r = r ≡ (nil, c)
  PopOf (j ∷ js) c (p, c') = (p ≡ job j) × (stack c' ≡ js)

  pop_zero : (c : CleanStack S) → c.count ≡ 0 → pop c ≡ (nil, c)
  unfolding pop
  pop_zero c e = ground arith

  pop-suc :
      (n : ℕ) (c : CleanStack S) {j : CleanJob S}
      → c.count ≡ suc n
      → get_elem? c.jobs n ≡ some j
      → pop c ≡ (job j, record c { count = n })
  unfolding pop
  pop-suc n c e g = let e' : c.count - 1 ≡ n = omega arith in rw (e', g) (ground arith)

  pub stack_zero : (c : CleanStack S) → c.count ≡ 0 → stack c ≡ []
  stack_zero c e = rw e refl

  stack-suc :
      (n : ℕ) (c : CleanStack S) {j : CleanJob S}
      → c.count ≡ suc n
      → take (suc n) c.jobs ≡ take n c.jobs ++ (j ∷ [])
      → stack c ≡ j ∷ reverse (take n c.jobs)
  stack-suc n c {j} e t = rw (e, t) (reverse-append (take n c.jobs) (j ∷ []))

  pop_top :
      (n : ℕ) (c : CleanStack S) {j : CleanJob S}
      → c.count ≡ suc n
      → get_elem? c.jobs n ≡ some j
      → take (suc n) c.jobs ≡ take n c.jobs ++ (j ∷ [])
      → IsValid c
      → IsValid (pop c).1 × PopOf (stack c) c (pop c)
  pop_top n c e g t v = rw (pop-suc n c e g, stack-suc n c e t) (omega arith, (refl, refl))

  pop_cases :
      (n : ℕ) (c : CleanStack S)
      → c.count ≡ n
      → IsValid c
      → IsValid (pop c).1 × PopOf (stack c) c (pop c)
  pop_cases zero c e v = rw (pop_zero c e, stack_zero c e) (v, refl)
  pop_cases (suc n) c e v = let (j, g, t) = take-suc n c.jobs (omega arith) in pop_top n c e g t v

  -- The same with the job named, for the loop of `Cleanup`.
  pub pop_job :
      (n : ℕ) (c : CleanStack S)
      → c.count ≡ suc n
      → IsValid c
      → (j : CleanJob S) × (pop c ≡ (job j, record c { count = n }))
        × (stack c ≡ j ∷ reverse (take n c.jobs))
  pop_job n c e v =
      let (j, g, t) = take-suc n c.jobs (omega arith) in (j, pop-suc n c e g, stack-suc n c e t)

  -- On a valid slice `Pop` returns nil and changes nothing if the stack is empty; else it returns
  -- the top, never a panic, and leaves the stack below it. The slice stays valid.
  pub stack-pop : (c : CleanStack S) → IsValid c → IsValid (pop c).1 × PopOf (stack c) c (pop c)
  stack-pop c v = pop_cases c.count c refl v
