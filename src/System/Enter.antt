-- ===== src/System/Enter.antt =====
-- Enter calls the command that the line names, with the fields of the line as its arguments.
use frewozet.Base.{
  ℕ, zero, suc, ◌+◌, ◌≤◌, ◌<◌, ◌≡◌, ◌∙◌, refl, sym, ap, ap₂, subst, some, List, [], ◌∷◌, ◌++◌, map,
  length, take, arith, update, Bool-cases, inl, inr,
}
use frewozet.CString.{text_of}
use frewozet.CString.Compare.{NulFree}
use frewozet.CString.Holds.{Holds}
use frewozet.CString.TextOf.{text_of-Holds}
use frewozet.CommandTable.{lookup_command}
use frewozet.Commands.{terminal_write}
use frewozet.Commands.Table.{Command, find_command, call}
use frewozet.Commands.Lookup.{all_added, lookup_command-all_added}
use frewozet.Shell.{Shell, buffer_size}
use frewozet.Shell.Kept.{history_add-buffer}
use frewozet.Tokenizer.{shell_tokenize, is_blank, is_quote}
use frewozet.Tokenizer.Fields.{Place, fields, between, bare, quoted}
use frewozet.Tokenizer.Cut.{end-Holds}
use frewozet.Tokenizer.Points.{Points}
use frewozet.Tokenizer.Refines.{shell_tokenize-fields}
use frewozet.System.{System, max_args, end_line, arguments, run_command, finish, enter}

abbrev AllFree : List (List ℕ) → Type 0
AllFree [] = Unit
AllFree (w ∷ words) = NulFree w × AllFree words

abbrev PlaceFree : Place → Type 0
PlaceFree between = Unit
PlaceFree (bare w) = NulFree w
PlaceFree (quoted w) = NulFree w

NulFree-append : (v : List ℕ) (c : ℕ) → NulFree v → 0 < c → NulFree (v ++ c ∷ [])
NulFree-append [] c f h = (h, tt)
NulFree-append (d ∷ v) c f h = (f.0, NulFree-append v c f.1 h)

fields-AllFree : (p : Place) (s : List ℕ) → PlaceFree p → NulFree s → AllFree (fields p s)
unfolding fields
fields-AllFree between [] f g = tt
fields-AllFree between (c ∷ s) f g = elim (Bool-cases (is_blank c)) [
  | inl blank ↦ rw blank (fields-AllFree between s tt g.1)
  | inr other ↦ elim (Bool-cases (is_quote c)) [
    | inl quote ↦ rw (other, quote) (fields-AllFree (quoted []) s tt g.1)
    | inr plain ↦ rw (other, plain) (fields-AllFree (bare (c ∷ [])) s (g.0, tt) g.1)
  ]
]
fields-AllFree (bare w) [] f g = (f, tt)
fields-AllFree (bare w) (c ∷ s) f g = elim (Bool-cases (is_blank c)) [
  | inl blank ↦ rw blank (f, fields-AllFree between s tt g.1)
  | inr other ↦ rw other (fields-AllFree (bare (w ++ c ∷ [])) s (NulFree-append w c f g.0) g.1)
]
fields-AllFree (quoted w) [] f g = (f, tt)
fields-AllFree (quoted w) (c ∷ s) f g = elim (Bool-cases (is_quote c)) [
  | inl quote ↦ rw quote (f, fields-AllFree between s tt g.1)
  | inr other ↦ rw other (fields-AllFree (quoted (w ++ c ∷ [])) s (NulFree-append w c f g.0) g.1)
]

take-AllFree : (n : ℕ) (words : List (List ℕ)) → AllFree words → AllFree (take n words)
take-AllFree zero words f = tt
take-AllFree (suc n) [] f = tt
take-AllFree (suc n) (w ∷ words) f = (f.0, take-AllFree n words f.1)

-- The strings at the pointers.
strings-Points :
    (argv : List ℕ) (words : List (List ℕ)) (e : ℕ) (buffer : ℕ → ℕ)
    → e < buffer_size
    → AllFree words
    → Points buffer e argv words
    → map (λ pointer. text_of buffer_size pointer buffer) argv ≡ words
strings-Points [] [] e buffer room f p = refl
strings-Points [] (w ∷ words) e buffer room f p = absurd p
strings-Points (a ∷ argv) [] e buffer room f p = absurd p
strings-Points (a ∷ argv) (w ∷ words) e buffer room f p =
    ap₂ (λ v vs. v ∷ vs) (text_of-Holds buffer_size a w buffer p.0 f.0 (omega (arith, p.1)))
      (strings-Points argv words e buffer room f.1 p.2)

-- The line that the shell holds.
pub record HoldsLine (line : List ℕ) (s : Shell) : Type 0 where
  pub holds : Holds s.buffer 0 line
  pub free : NulFree line
  pub size : s.buffer_length ≡ length line
  pub fits : length line ≤ 127

end_line-buffer : (s : Shell) → (end_line s).buffer ≡ update s.buffer s.buffer_length 0
unfolding end_line
end_line-buffer s =
    history_add-buffer (text_of buffer_size 0 (update s.buffer s.buffer_length 0)) (record s {
      buffer = update s.buffer s.buffer_length 0;
      terminal = terminal_write "\n" s.terminal;
    })

-- The arguments that Enter reads are the fields of the line, the first sixteen of them.
pub arguments-fields :
    (line : List ℕ) (s : Shell)
    → HoldsLine line s
    → (arguments (end_line s)).0 ≡ take max_args (fields between line)
unfolding arguments
arguments-fields line s l =
    let t = shell_tokenize buffer_size 0 max_args (end_line s).buffer in
    strings-Points t.argv (take max_args (fields between line)) (0 + length line) t.buffer
      (omega (arith, l.fits))
      (take-AllFree max_args (fields between line) (fields-AllFree between line tt l.free))
      (shell_tokenize-fields buffer_size 0 max_args line (end_line s).buffer holds l.free
        (omega (arith, l.fits)))
  where
    holds : Holds (end_line s).buffer 0 line
    holds =
        subst (λ b. Holds b 0 line) (sym (end_line-buffer s))
          (end-Holds line s.buffer 0 s.buffer_length l.holds (omega (arith, l.size)))

-- Enter on a line whose first field is the name of a command calls that command, with the first
-- sixteen fields of the line as its arguments, and then prints a new prompt; the commands were
-- registered in an empty table.
pub enter-command :
    (y : System) (line name : List ℕ) (argv : List (List ℕ)) (cmd : Command)
    → HoldsLine line y.shell
    → take max_args (fields between line) ≡ name ∷ argv
    → y.devices.table ≡ all_added (λ i. [])
    → find_command name ≡ some cmd
    → let s = (arguments (end_line y.shell)).1 in
      enter y ≡ finish s y.keyboard (call cmd.handler (name ∷ argv) s s.terminal y.devices)
unfolding enter run_command
enter-command y line name argv cmd l split table found =
    ap (λ words. finish s y.keyboard (run_command words s y.devices)) words
    ∙ ap (λ o. finish s y.keyboard o) ran
  where
    s : Shell
    s = (arguments (end_line y.shell)).1

    words : (arguments (end_line y.shell)).0 ≡ name ∷ argv
    words = arguments-fields line y.shell l ∙ split

    free : NulFree name
    free =
        (subst AllFree split
          (take-AllFree max_args (fields between line) (fields-AllFree between line tt l.free))).0

    known : lookup_command name y.devices.table ≡ some cmd.handler
    known =
        ap (λ t. lookup_command name t) table
        ∙ lookup_command-all_added name (λ i. []) free
        ∙ rw found refl

    ran :
        run_command (name ∷ argv) s y.devices
        ≡ call cmd.handler (name ∷ argv) s s.terminal y.devices
    ran = rw (run_command, known) refl
