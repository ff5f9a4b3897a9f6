-- ===== src/Network/Examples.antt =====
-- The network: an example of each law.
use ssh_worker.Prelude.{some, [], ◌∷◌, bytes}
use ssh_worker.Network.{WsConn, read}
use ssh_worker.Network.Laws.{Keeps, pending, read-Keeps}

abbrev framed : WsConn
framed = record { reader = some []; messages = [] ∷ bytes "SSH-2.0" ∷ bytes "x" ∷ [] }

read-Keeps_example : Keeps (pending framed) (read 4 framed)
read-Keeps_example = read-Keeps 3 framed
