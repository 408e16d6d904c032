-- ===== src/RemoteCall/Tests.antt =====
-- The executor on a line of two words.
use nsysu_network_applicatio.Prelude.{◌≡◌, refl, codes, ◌∷◌, ok, replicate}
use nsysu_network_applicatio.Shell.Argv.{str, null, uninit}
use nsysu_network_applicatio.Shell.Parse.Words.{words}
use nsysu_network_applicatio.RemoteCall.{execute}
use nsysu_network_applicatio.RemoteCall.Executed.{meaning, execute-words}

execute-words_example :
    execute (codes "ls -l") ≡ ok (str (codes "ls") ∷ str (codes "-l") ∷ null ∷ replicate 97 uninit)
unfolding meaning words
execute-words_example = execute-words (codes "ls -l") (refl, (refl, (refl, (refl, (refl, tt)))))
