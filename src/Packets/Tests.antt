-- ===== src/Packets/Tests.antt =====
-- Runs of the packet program of ihs/src/what.cpp, and the theorem at one of them.
use fast_server.Prelude.{◌≡◌, refl, arith, List, [], ◌∷◌, ◌++◌}
use fast_server.Queue.Modulo
use fast_server.Producers.{put}
use fast_server.Packets
use fast_server.Packets.{Step, receives, works, packet, would_block, moving, busy}
use fast_server.Packets.Conserved.{places_of, buffer_conserved}

-- A packet is taken, received and pushed.
abbrev five : List Step
five = receives packet ∷ receives packet ∷ receives packet ∷ receives packet ∷ receives packet ∷ []

-- Two packets for two workers with queues of two slots; one worker has its packet in hand, and the
-- other has read the slot and not yet stored the head.
abbrev few : List Step
few =
    five
    ++ five
    ++ works 1 ∷ works 1 ∷ works 0 ∷ works 1 ∷ works 0 ∷ receives packet ∷ receives would_block ∷ []

few-workers :
    ((Packets.steps 2 2 few (Packets.start 2 2 3)).workers 1 ≡ busy 1)
    × ((Packets.steps 2 2 few (Packets.start 2 2 3)).workers 0 ≡ moving 0)
unfolding Packets.steps Packets.step Packets.start Packets.receive_step Packets.worker_step
    Packets.acquired Packets.acquire Packets.release Packets.buffers_below Packets.put_item
    Packets.store_tail Packets.front_item Packets.store_head Modulo.create put
few-workers = (refl, refl)

buffer_conserved_example :
    places_of 1 1024 4 (Packets.steps 1024 4 few (Packets.start 1024 4 2000)) ≡ 1
buffer_conserved_example =
    buffer_conserved 1024 4 2000 1 few (omega arith) (omega arith) (omega arith) (omega arith)
