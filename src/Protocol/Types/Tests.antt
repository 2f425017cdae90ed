-- ===== src/Protocol/Types/Tests.antt =====
-- The codes of src/types.rs on single bytes.
use coresplitter.Base.{◌≡◌, ◌↔◌, false, none, some, arith}
use coresplitter.Protocol.Types.Command.Laws.{from_byte-CommandCode, to_string-CommandCode}
use coresplitter.Protocol.Types.Command

from_byte-CommandCode_example :
    ((Command.from_byte 0x01 ≡ some Command.CommandCode.app_start)
      ↔ (0x01 ≡ Command.to_byte Command.CommandCode.app_start))
    × ((Command.from_byte 0x01 ≡ none) ↔ (Command.Laws.is_assigned 0x01 ≡ false))
from_byte-CommandCode_example =
    from_byte-CommandCode 0x01 Command.CommandCode.app_start (omega arith)
