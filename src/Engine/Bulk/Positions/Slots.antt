-- ===== src/Engine/Bulk/Positions/Slots.antt =====
-- crates/osproxy-engine/src/bulk.rs: the slots of the response lines against the operations.
use opensearch_proxy.Prelude.{
  ◌<◌, subst, eq_sound, Bool-cases, ℕ, zero, suc, ◌≡◌, refl, inl, inr, Bool, true, false, ◌||◌,
  none, some, List, [], ◌∷◌, ◌==◌, nat_eq, All, arith, length,
}
use opensearch_proxy.Engine.Bulk.Demux.{Lines, set_line, set_lines}
use opensearch_proxy.Engine.Bulk.Echo.{Answers, Describes}
use opensearch_proxy.Engine.Bulk.Ingest.{no_lines}
use opensearch_proxy.Engine.Bulk.Item.{Prepared}
use opensearch_proxy.Engine.Bulk.Line.{Line}
use opensearch_proxy.Rewrite.Bulk.{BulkItem}
use opensearch_proxy.Spi.Request.{RequestCtx}

-- The operation at a position, if there is one, and what is said of it.
abbrev pub At : (BulkItem → Type 0) → List BulkItem → ℕ → Type 0
At P [] i = ⊥
At P (item ∷ items) zero = P item
At P (item ∷ items) (suc i) = At P items i

module _ (ctx : RequestCtx) where
  -- Each operation has its line, at its own position.
  abbrev pub Answered : List BulkItem → Lines → Type 0
  Answered [] [] = Unit
  Answered (item ∷ items) (some line ∷ lines) = Answers ctx item line × Answered items lines
  Answered _ _ = ⊥

  -- The same, for the slots that are filled.
  abbrev pub AgreesWith : List BulkItem → Lines → Type 0
  AgreesWith [] [] = Unit
  AgreesWith (item ∷ items) (none ∷ lines) = AgreesWith items lines
  AgreesWith (item ∷ items) (some line ∷ lines) = Answers ctx item line × AgreesWith items lines
  AgreesWith _ _ = ⊥

  abbrev pub Fits : List BulkItem → ℕ × Line → Type 0
  Fits items (i, line) = At (λ item. Answers ctx item line) items i

  abbrev pub IsEntryOf : List BulkItem → ℕ × Prepared → Type 0
  IsEntryOf items (i, p) = At (λ item. Describes ctx item p) items i

abbrev pub filled : Lines → ℕ → Bool
filled [] i = false
filled (none ∷ lines) zero = false
filled (some line ∷ lines) zero = true
filled (l ∷ lines) (suc i) = filled lines i

abbrev pub names {ℓ} : {A : Type ℓ} → List (ℕ × A) → ℕ → Bool
names [] j = false
names ((i, a) ∷ later) j = (i == j) || names later j

pub At-map :
    (P Q : BulkItem → Type 0)
    → ((item : BulkItem) → P item → Q item)
    → (items : List BulkItem) (i : ℕ) → At P items i
    → At Q items i
At-map P Q f [] i h = h
At-map P Q f (item ∷ items) zero h = f item h
At-map P Q f (item ∷ items) (suc i) h = At-map P Q f items i h

module _ (ctx : RequestCtx) where
  pub set_line-AgreesWith :
      (items : List BulkItem) (lines : Lines) (i : ℕ) (line : Line)
      → AgreesWith ctx items lines
      → Fits ctx items (i, line)
      → AgreesWith ctx items (set_line lines i line)
  set_line-AgreesWith [] lines i line h fit = absurd fit
  set_line-AgreesWith (item ∷ items) [] i line h fit = absurd h
  set_line-AgreesWith (item ∷ items) (none ∷ lines) zero line h fit = (fit, h)
  set_line-AgreesWith (item ∷ items) (some l ∷ lines) zero line h fit = (fit, h.1)
  set_line-AgreesWith (item ∷ items) (none ∷ lines) (suc i) line h fit =
      set_line-AgreesWith items lines i line h fit
  set_line-AgreesWith (item ∷ items) (some l ∷ lines) (suc i) line h fit =
      (h.0, set_line-AgreesWith items lines i line h.1 fit)

  pub filled-set_line :
      (items : List BulkItem) (lines : Lines) (i : ℕ) (line : Line)
      → AgreesWith ctx items lines
      → Fits ctx items (i, line)
      → filled (set_line lines i line) i ≡ true
  filled-set_line [] lines i line h fit = absurd fit
  filled-set_line (item ∷ items) [] i line h fit = absurd h
  filled-set_line (item ∷ items) (l ∷ lines) zero line h fit = refl
  filled-set_line (item ∷ items) (none ∷ lines) (suc i) line h fit =
      filled-set_line items lines i line h fit
  filled-set_line (item ∷ items) (some l ∷ lines) (suc i) line h fit =
      filled-set_line items lines i line h.1 fit

pub filled-set_line_keeps :
    (lines : Lines) (i j : ℕ) (line : Line)
    → filled lines j ≡ true
    → filled (set_line lines i line) j ≡ true
filled-set_line_keeps [] i j line h = cc
filled-set_line_keeps (l ∷ lines) zero zero line h = refl
filled-set_line_keeps (none ∷ lines) zero (suc j) line h = h
filled-set_line_keeps (some l ∷ lines) zero (suc j) line h = h
filled-set_line_keeps (none ∷ lines) (suc i) zero line h = h
filled-set_line_keeps (some l ∷ lines) (suc i) zero line h = h
filled-set_line_keeps (none ∷ lines) (suc i) (suc j) line h = filled-set_line_keeps lines i j line h
filled-set_line_keeps (some l ∷ lines) (suc i) (suc j) line h =
    filled-set_line_keeps lines i j line h

pub filled-set_lines_keeps :
    (ws : List (ℕ × Line)) (lines : Lines) (j : ℕ)
    → filled lines j ≡ true
    → filled (set_lines ws lines) j ≡ true
filled-set_lines_keeps [] lines j h = h
filled-set_lines_keeps ((i, line) ∷ ws) lines j h =
    filled-set_lines_keeps ws (set_line lines i line) j (filled-set_line_keeps lines i j line h)

module _ (ctx : RequestCtx) (items : List BulkItem) where
  pub set_lines-AgreesWith :
      (ws : List (ℕ × Line)) (lines : Lines)
      → AgreesWith ctx items lines
      → All (Fits ctx items) ws
      → AgreesWith ctx items (set_lines ws lines)
  set_lines-AgreesWith [] lines h fit = h
  set_lines-AgreesWith ((i, line) ∷ ws) lines h fit =
      set_lines-AgreesWith ws (set_line lines i line)
        (set_line-AgreesWith ctx items lines i line h fit.0) fit.1

  -- A slot that is among the assignments is filled.
  pub filled-set_lines :
      (ws : List (ℕ × Line)) (lines : Lines) (j : ℕ)
      → AgreesWith ctx items lines
      → All (Fits ctx items) ws
      → names ws j ≡ true
      → filled (set_lines ws lines) j ≡ true
  filled-set_lines [] lines j h fit named = cc
  filled-set_lines ((i, line) ∷ ws) lines j h fit named = elim (Bool-cases (i == j)) [
    | inl same ↦ filled-set_lines_keeps ws (set_line lines i line) j (
        subst (λ k. filled (set_line lines i line) k ≡ true) (eq_sound i j same)
          (filled-set_line ctx items lines i line h fit.0))
    | inr other ↦
        filled-set_lines ws (set_line lines i line) j
          (set_line-AgreesWith ctx items lines i line h fit.0) fit.1 (rw other at named)
  ]

module _ (ctx : RequestCtx) where
  pub no_lines-AgreesWith : (items : List BulkItem) → AgreesWith ctx items (no_lines items)
  no_lines-AgreesWith [] = tt
  no_lines-AgreesWith (item ∷ items) = no_lines-AgreesWith items

  pub AgreesWith-Answered :
      (items : List BulkItem) (lines : Lines)
      → AgreesWith ctx items lines
      → ((j : ℕ) → j < length items → filled lines j ≡ true)
      → Answered ctx items lines
  AgreesWith-Answered [] [] h full = tt
  AgreesWith-Answered (item ∷ items) [] h full = absurd h
  AgreesWith-Answered [] (l ∷ lines) h full = absurd h
  AgreesWith-Answered (item ∷ items) (none ∷ lines) h full =
      let wrong : false ≡ true = full 0 (omega arith) in cc
  AgreesWith-Answered (item ∷ items) (some line ∷ lines) h full =
      (h.0, AgreesWith-Answered items lines h.1 (λ j lt. full (suc j) (omega arith)))
