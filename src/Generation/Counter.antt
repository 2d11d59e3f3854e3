-- ===== src/Generation/Counter.antt =====
-- `GenerationFactory._next_generation`: the counter that is kept in a file.
use s3_storage_node.Common.{ℕ, zero, suc, ◌+◌, ◌≡◌, ap, ◌∙◌, Option, none, some, arith}
use s3_storage_node.Common.Int.{ℤ, pos, negsuc}

abbrev pub suc_ℤ : ℤ → ℤ
suc_ℤ (pos n) = pos (n + 1)
suc_ℤ (negsuc zero) = pos 0
suc_ℤ (negsuc (suc n)) = negsuc n

-- How Python prints and reads a number in a line of text `T`; `none` is a ValueError.
pub record Decimal (T : Type 0) : Type 0 where
  pub render : ℤ → T
  pub parse : T → Option ℤ
  pub parse-render : (z : ℤ) → parse (render z) ≡ some z

-- The text of `generation-counter`; `none` when there is no file.
abbrev pub CounterFile : Type 0 → Type 0
CounterFile T = Option T

module _ {T : Type 0} (dec : Decimal T) where
  abbrev parsed : Option ℤ → ℤ
  parsed none = pos 0
  parsed (some z) = z

  unfoldable pub current : CounterFile T → ℤ
  current none = pos 0
  current (some content) = parsed (dec.parse content)

  -- The result, and the file that is left.
  unfoldable pub next_generation : CounterFile T → ℤ × CounterFile T
  unfolding current
  next_generation file = (suc_ℤ (current file), some (dec.render (suc_ℤ (current file))))

  -- The number after `n` calls.
  unfoldable pub allocate : ℕ → CounterFile T → ℤ × CounterFile T
  unfolding next_generation
  allocate zero file = (current file, file)
  allocate (suc n) file = next_generation (allocate n file).1

  -- Starting from a counter file that reads as `k`, or from none with `k` equal to 0, the `n`-th
  -- generation allocated is number `k + n`, so that no number is given twice.
  pub allocate-pos :
      (file : CounterFile T) (k n : ℕ) → current file ≡ pos k → (allocate n file).0 ≡ pos (k + n)
  unfolding allocate next_generation current
  allocate-pos file k zero h = h ∙ ap pos (omega arith)
  allocate-pos file k (suc zero) h = ap suc_ℤ h
  allocate-pos file k (suc (suc n)) h =
      ap (λ o. suc_ℤ (parsed o)) (dec.parse-render (allocate (suc n) file).0)
      ∙ ap suc_ℤ (allocate-pos file k (suc n) h)
      ∙ ap pos (omega arith)
