-- ===== src/RemoteCall.antt =====
-- extra1/myrpc.c: a commander sends each line through a pipe to an executor, which runs it and
-- sends back what it prints.
pub mod Executed
pub mod Tests
use nsysu_network_applicatio.Prelude.{
  ℕ, zero, suc, ◌+◌, Bool, true, false, Bytes, List, [], ◌∷◌, ◌++◌, length, take, replicate, Option,
  none, some, Run, ok, fault, ◌>>=◌, out_of_fuel, null_pointer,
}
use nsysu_network_applicatio.Broker.Message.{until_nul}
use nsysu_network_applicatio.Shell.Argv.{Slot, uninit, null, str, Argv, load, store, text}
use nsysu_network_applicatio.Shell.Parse.{strtok}
use nsysu_network_applicatio.Dictionary.Convert.{before_newline}

-- what the executor reads of the line and its NUL, into a buffer of 1024 bytes
unfoldable pub received : Bytes → Bytes
unfolding until_nul
received command = until_nul (take 1023 (command ++ 0 ∷ []))

-- The loop over the tokens, with the NULL behind it.
pub token_loop : ℕ → Bytes → Argv → ℕ → Run Argv
token_loop zero rest read_argv index = fault out_of_fuel
token_loop (suc fuel) rest read_argv index = elim (strtok rest) [
  | none ↦ store read_argv index null
  | some (token, rest') ↦ do
    read_argv' ← store read_argv index (str token)
    token_loop fuel rest' read_argv' (index + 1)
]

-- What `execvp` is given; it reads the name.
unfoldable pub executed : Argv → Run Argv
executed read_argv = do p ← load read_argv 0; name ← text p; ok read_argv

-- The process of the executor, with the array of 100 pointers that it does not initialise.
unfoldable pub execute : Bytes → Run Argv
unfolding received executed
execute command =
    let buf = received command in
    (do read_argv ← token_loop (length buf + 1) buf (replicate 100 uninit) 0; executed read_argv)

-- What the commander writes of the chunks that it reads, to the file if there is one.
relay : List Bytes → Bytes
relay [] = []
relay (chunk ∷ chunks) = chunk ++ relay chunks

-- A round for a line: what is executed, and for the chunks of its output what is written.
unfoldable pub round : Bytes → List Bytes → Run (Argv × Bytes)
unfolding before_newline execute relay
round line chunks = do read_argv ← execute (before_newline line); ok (read_argv, relay chunks)
