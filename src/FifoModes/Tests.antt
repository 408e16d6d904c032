-- ===== src/FifoModes/Tests.antt =====
-- The theorems on a kernel that does what fifo(7) says.
use nsysu_network_applicatio.Prelude.{◌≡◌, refl, true, false}
use nsysu_network_applicatio.FifoModes.{
  both_block, server, client, opened, waits, refused, Kernel, IsFifo, start,
}
use nsysu_network_applicatio.FifoModes.Timed.{announced, finished, timed, timed_ends}

abbrev kernel : Kernel
kernel side blocking true = opened
kernel side true false = waits
kernel server false false = opened
kernel client false false = refused

kernel-IsFifo : IsFifo kernel
kernel-IsFifo = record {
  other_opens = λ side blocking. refl;
  blocking_waits = λ side. refl;
  reader_opens = refl;
  writer_refused = refl;
}

timed_ends_example : timed 30 kernel both_block client (start both_block) ≡ record {
  server_process = finished (announced both_block).0;
  client_process = finished (announced both_block).1;
}
timed_ends_example = timed_ends kernel-IsFifo both_block client
