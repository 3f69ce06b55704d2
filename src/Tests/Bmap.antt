-- ===== src/Tests/Bmap.antt =====
-- Paths to blocks, with 2048 pointers in an indirect block.
use ufson_mac_os.Base.{arith}
use ufson_mac_os.Base.Int.{pos}
use ufson_mac_os.Bmap.{getlbns}
use ufson_mac_os.Bmap.Path.{Reaches, getlbns-Reaches}

getlbns-Reaches_example : Reaches 2048 5000000 (getlbns 2048 (pos 5000000))
getlbns-Reaches_example = getlbns-Reaches 2048 (omega arith) 5000000
