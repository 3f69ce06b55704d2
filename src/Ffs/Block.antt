-- ===== src/Ffs/Block.antt =====
-- The free-block map routines of ufsX/ufs/ffs/ffs_subr.c: `ffs_isblock`, `ffs_isfreeblock`,
-- `ffs_clrblock` and `ffs_setblock`. A map is the list of its bytes, a block number is not
-- negative, and `frag` is `fs_frag`. The `panic` of an unknown `fs_frag` is compiled out in user
-- space, where the code falls through to its default.
pub mod Bytes
pub mod Fragments
pub mod Update
pub mod Whole
use ufson_mac_os.Base.{ℕ, ◌-◌, Bool, false, List, bit_and, bit_or, ◌==◌, if◌then◌else◌}
use ufson_mac_os.Base.{get_or, set, u8, ◌<<<◌, ◌>>>◌}

-- A read past the end, which the callers rule out, gives 0 here.
abbrev pub byte : List ℕ → ℕ → ℕ
byte cp i = get_or cp i 0

-- The bits of block `h` within its byte, one mask for each case of the switch.
abbrev pub mask4 : ℕ → ℕ
mask4 h = 0x0f <<< (bit_and h 1 <<< 2)

abbrev pub mask2 : ℕ → ℕ
mask2 h = 0x03 <<< (bit_and h 3 <<< 1)

abbrev pub mask1 : ℕ → ℕ
mask1 h = 0x01 <<< bit_and h 7

unfoldable pub isblock : ℕ → List ℕ → ℕ → Bool
isblock frag cp h =
    if frag == 8
    then byte cp h == 0xff
    else if frag == 4
    then bit_and (byte cp (h >>> 1)) (u8 (mask4 h)) == u8 (mask4 h)
    else if frag == 2
    then bit_and (byte cp (h >>> 2)) (u8 (mask2 h)) == u8 (mask2 h)
    else if frag == 1
    then bit_and (byte cp (h >>> 3)) (u8 (mask1 h)) == u8 (mask1 h)
    else false

pub isfreeblock : ℕ → List ℕ → ℕ → Bool
isfreeblock frag cp h =
    if frag == 8
    then byte cp h == 0
    else if frag == 4
    then bit_and (byte cp (h >>> 1)) (mask4 h) == 0
    else if frag == 2
    then bit_and (byte cp (h >>> 2)) (mask2 h) == 0
    else if frag == 1
    then bit_and (byte cp (h >>> 3)) (mask1 h) == 0
    else false

-- `cp[p] &= ~m`, stored back into an `unsigned char`.
abbrev pub and_not : List ℕ → ℕ → ℕ → List ℕ
and_not cp p m = set cp p (bit_and (byte cp p) (0xff - m))

-- `cp[p] |= m`
abbrev pub or_in : List ℕ → ℕ → ℕ → List ℕ
or_in cp p m = set cp p (u8 (bit_or (byte cp p) m))

pub clrblock : ℕ → List ℕ → ℕ → List ℕ
clrblock frag cp h =
    if frag == 8
    then set cp h 0
    else if frag == 4
    then and_not cp (h >>> 1) (mask4 h)
    else if frag == 2
    then and_not cp (h >>> 2) (mask2 h)
    else if frag == 1
    then and_not cp (h >>> 3) (mask1 h)
    else cp

pub setblock : ℕ → List ℕ → ℕ → List ℕ
setblock frag cp h =
    if frag == 8
    then set cp h 0xff
    else if frag == 4
    then or_in cp (h >>> 1) (mask4 h)
    else if frag == 2
    then or_in cp (h >>> 2) (mask2 h)
    else if frag == 1
    then or_in cp (h >>> 3) (mask1 h)
    else cp
