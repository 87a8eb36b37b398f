-- ===== src/Tests/Life.antt =====
-- A server of the sample configuration that a client has connected to.
use yaima.Base.{arith}
use yaima.Sample.{config}
use yaima.Main.{serving, running, stopped, accept, second, fresh}
use yaima.Main.Life.{Run, here, next, QuietRun, InTime, server_stops}

one_client : Run config fresh (running serving 1 1)
one_client = next (next here accept) (second (omega arith))

server_stops_example :
    InTime config (running serving 1 1) × QuietRun config (running serving 1 1) stopped
server_stops_example = server_stops config (running serving 1 1) one_client
