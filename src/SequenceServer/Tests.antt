-- ===== src/SequenceServer/Tests.antt =====
-- The FIFO server with three clients, one of which does not open its FIFO.
use nsysu_network_applicatio.Prelude.{◌≡◌, List, [], ◌∷◌, map, none, some}
use nsysu_network_applicatio.SequenceServer.{fifo_run}
use nsysu_network_applicatio.SequenceServer.Clients.{
  Client, request_of, displayed, is_served, told, fifo_run-told,
}

abbrev clients : List Client
clients =
    record { pid = 100; argument = some 3; rand_num = 7; late = 0 }
    ∷ record { pid = 101; argument = some 2; rand_num = 3; late = 0 }
    ∷ record { pid = 102; argument = none; rand_num = 10; late = 1 }
    ∷ []

fifo_run-told_example : displayed (fifo_run 0 (map request_of clients)).1 ≡ told is_served 0 clients
fifo_run-told_example = fifo_run-told 0 clients
