-- ===== src/Shell/Child/Plain.antt =====
-- Children of the second shell without redirections, and one with its input from a file.
use nsysu_network_applicatio.Prelude.{
  ℕ, suc, ◌≡◌, refl, true, false, Bytes, List, [], ◌∷◌, ◌++◌, some, Run, ok, fault, ◌>>=◌,
  use_after_free,
}
use nsysu_network_applicatio.Shell.Argv.{argv_of}
use nsysu_network_applicatio.Shell.Words.{contains}
use nsysu_network_applicatio.Shell.Redirect.{input, output, symbol_of}
use nsysu_network_applicatio.Shell.Redirect.Cases.{redirect_untouched, redirect_last}
use nsysu_network_applicatio.Shell.Pipe.{Ending}
use nsysu_network_applicatio.Shell.Pipe.Verdict.{split_at_bar}
use nsysu_network_applicatio.Shell.Pipe.Overrun.{outcome, pipe_and_exec-outcome}
use nsysu_network_applicatio.Shell.Child.{Kernel, ChildEnd, ran, child}

-- The end of the child from the end of `pipe_and_exec`, where nothing is redirected.
unfoldable pub unredirected : Run Ending → Run ChildEnd
unredirected r = do ending ← r; ok (ran [] ending)

-- A child with neither "<" nor ">" among its words makes no call for a redirection and ends as its
-- words around the first "|" say. At least one command is allowed for.
pub child_plain :
    (k : Kernel) (n : ℕ) (ts : List Bytes)
    → k.commands ≡ suc n
    → contains (symbol_of input) ts ≡ false
    → contains (symbol_of output) ts ≡ false
    → child k (argv_of ts) ≡ unredirected (outcome ts (split_at_bar ts))
unfolding child unredirected
child_plain k n ts e no_in no_out =
    rw
      (
        redirect_untouched k.open_in k.dup2_ok input ts no_in,
        redirect_untouched k.open_out k.dup2_ok output ts no_out,
        e,
        pipe_and_exec-outcome k.pipe_ok k.child_fork_ok n ts,
      )
      refl

-- A child whose words end in "<" and a file that opens, with no "<" before, faults before it executes
-- anything: `redirect_in` reads a string it has freed.
pub child_faults :
    (k : Kernel) (pre : List Bytes) (name : Bytes) (fd : ℕ)
    → contains (symbol_of input) pre ≡ false
    → k.open_in name ≡ some fd
    → k.dup2_ok fd ≡ true
    → child k (argv_of (pre ++ symbol_of input ∷ name ∷ [])) ≡ fault use_after_free
unfolding child
child_faults k pre name fd before opens dups =
    rw (redirect_last k.open_in k.dup2_ok input pre before name fd opens dups) refl
