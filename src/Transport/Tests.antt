-- ===== src/Transport/Tests.antt =====
-- The read and write tasks on concrete connections.
use coresplitter.Base.{◌≡◌, refl, List, [], ◌∷◌, ◌++◌, arith}
use coresplitter.Base.Bytes.{Bytes}
use coresplitter.Protocol.Frame.{new, encode_command, encode_response}
use coresplitter.Transport.{read_loop, write_commands, write_responses}
use coresplitter.Transport.Link.{reads_of, read_loop-write_commands, read_loop-cut}

abbrev sent : List Bytes
sent = (1 ∷ 2 ∷ []) ∷ (3 ∷ []) ∷ []

-- The two frames cut inside the header of the second.
abbrev chunks : List Bytes
chunks = (0x3C ∷ 2 ∷ 0 ∷ 1 ∷ 2 ∷ 0x3C ∷ []) ∷ (1 ∷ 0 ∷ 3 ∷ []) ∷ []

read_loop-write_commands_example : read_loop new (reads_of chunks []) ≡ (1 ∷ 2 ∷ []) ∷ (3 ∷ []) ∷ []
unfolding write_commands encode_command
read_loop-write_commands_example =
    read_loop-write_commands sent chunks [] (omega arith, (omega arith, tt)) refl

read_loop-cut_example :
    (missing : List Bytes) × (read_loop new (reads_of ((0x3E ∷ 2 ∷ 0 ∷ 1 ∷ 2 ∷ 0x3E ∷ []) ∷ []) [])
        ++ missing
      ≡ sent)
unfolding write_responses encode_response
read_loop-cut_example =
    read_loop-cut sent ((0x3E ∷ 2 ∷ 0 ∷ 1 ∷ 2 ∷ 0x3E ∷ []) ∷ []) (1 ∷ 0 ∷ 3 ∷ []) []
      (omega arith, (omega arith, tt)) refl
