-- ===== src/Agent/Terminal/Buffer.antt =====
-- What the buffer of a terminal holds.
use mathlib.Core.List.{append_assoc, append-nil}
use ringclaw.Prelude.{
  ℕ, zero, suc, ◌+◌, ◌-◌, ◌≤◌, ◌<◌, false, List, [], ◌∷◌, ◌++◌, length, length-append, drop,
  length-drop, drop-append, drop-drop, concat, leb, ◌≡◌, refl, sym, ap, ◌∙◌, arith,
}
use ringclaw.Prelude.Int.{ℤ, pos, negsuc}
use ringclaw.Prelude.Text.{Text}
use ringclaw.Agent.Terminal.{TerminalBuffer, keep_last, truncate, write, truncated}

-- The last bytes of a text do not depend on a front that is cut off before them.
keep_last-drop :
    (limit k : ℕ) (bytes : Text)
    → k ≤ length bytes - limit
    → keep_last limit (drop k bytes) ≡ keep_last limit bytes
keep_last-drop limit k bytes h =
    drop-drop (length (drop k bytes) - limit) k bytes
    ∙ ap (λ n. drop n bytes) {x = k + (length (drop k bytes) - limit)} {y = length bytes - limit}
        (omega (arith, length-drop k bytes))

keep_last-append :
    (limit : ℕ) (s p : Text) → keep_last limit (keep_last limit s ++ p) ≡ keep_last limit (s ++ p)
keep_last-append limit s p =
    ap (keep_last limit) (sym (drop-append (length s - limit) s p (omega arith)))
    ∙ keep_last-drop limit (length s - limit) (s ++ p) (omega (arith, length-append s p))

keep_last_short : (limit : ℕ) (s : Text) → length s ≤ limit → keep_last limit s ≡ s
keep_last_short limit s h = ap (λ n. drop n s) {x = length s - limit} {y = 0} (omega arith)

length-keep_last : (limit : ℕ) (s : Text) → length (keep_last limit s) ≤ limit
length-keep_last limit s = omega (arith, length-drop (length s - limit) s)

-- `truncate` at a positive limit, without its test.
truncate_pos : (limit : ℕ) (s : Text) → 0 < limit → truncate (pos limit) s ≡ keep_last limit s
truncate_pos limit s h = ground (arith, keep_last_short limit s)

truncate-append :
    (limit : ℤ) (s p : Text) → truncate limit (truncate limit s ++ p) ≡ truncate limit (s ++ p)
truncate-append (pos zero) s p = refl
truncate-append (pos (suc n)) s p =
    let positive : 0 < suc n = omega arith in
    rw
      (
        truncate_pos (suc n) s positive,
        truncate_pos (suc n) (keep_last (suc n) s ++ p) positive,
        truncate_pos (suc n) (s ++ p) positive,
      )
      (keep_last-append (suc n) s p)
truncate-append (negsuc n) s p = refl

-- Every chunk that a process writes, in order.
abbrev pub write_all : List Text → TerminalBuffer → TerminalBuffer
write_all [] b = b
write_all (p ∷ chunks) b = write_all chunks (write p b)

-- The buffer of a terminal holds the last bytes of all that the process wrote, as many as the
-- limit allows, however the writes are cut into chunks.
pub write_all-truncate :
    (chunks : List Text) (b : TerminalBuffer) (s : Text)
    → b.buf ≡ truncate b.limit s
    → (write_all chunks b).buf ≡ truncate b.limit (s ++ concat chunks)
unfolding write
write_all-truncate [] b s e = e ∙ ap (truncate b.limit) (sym (append-nil s))
write_all-truncate (p ∷ chunks) b s e =
    write_all-truncate chunks (write p b) (s ++ p)
      (ap (λ t. truncate b.limit (t ++ p)) e ∙ truncate-append b.limit s p)
    ∙ ap (truncate b.limit) (append_assoc s p (concat chunks))

write_all-limit : (chunks : List Text) (b : TerminalBuffer) → (write_all chunks b).limit ≡ b.limit
unfolding write
write_all-limit [] b = refl
write_all-limit (p ∷ chunks) b = write_all-limit chunks (write p b)

truncate_nil : (limit : ℤ) → [] ≡ truncate limit []
truncate_nil (pos n) = ground (arith, keep_last_short n [])
truncate_nil (negsuc n) = refl

-- The buffer of a process that wrote these chunks.
abbrev pub filled : ℤ → List Text → TerminalBuffer
filled limit chunks = write_all chunks (record { buf = []; limit = limit })

filled-truncate :
    (limit : ℤ) (chunks : List Text)
    → filled limit chunks ≡ record { buf = truncate limit (concat chunks); limit = limit }
filled-truncate limit chunks =
    let b : TerminalBuffer = record { buf = []; limit = limit } in
    cc (write_all-truncate chunks b [] (truncate_nil limit), write_all-limit chunks b)

-- Under a positive limit, `Truncated` tells that the process has written at least as many bytes as
-- the limit: also when it has written just so many, and nothing is lost.
truncated-write_all :
    (n : ℕ) (chunks : List Text)
    → truncated (filled (pos (suc n)) chunks) ≡ leb (suc n) (length (concat chunks))
unfolding truncated
truncated-write_all n chunks =
    let s = concat chunks in
    rw (filled-truncate (pos (suc n)) chunks) (ground (arith, length-drop (length s - suc n) s))

complete_at :
    (limit : ℤ) (s : Text)
    → truncated (record { buf = truncate limit s; limit = limit }) ≡ false
    → truncate limit s ≡ s
unfolding truncated
complete_at (pos n) s h = ground (arith, length-drop (length s - n) s)
complete_at (negsuc n) s h = refl

-- When `Truncated` says no, the buffer holds everything that was written.
pub truncated_complete :
    (limit : ℤ) (chunks : List Text)
    → truncated (filled limit chunks) ≡ false
    → (filled limit chunks).buf ≡ concat chunks
truncated_complete limit chunks h =
    let e = filled-truncate limit chunks in
    ap (λ b. b.buf) e ∙ complete_at limit (concat chunks) (sym (ap truncated e) ∙ h)
