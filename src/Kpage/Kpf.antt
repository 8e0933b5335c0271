-- ===== src/Kpage/Kpf.antt =====
-- packages/fragview/kpage.go: the bit numbers of a kpageflags word, `kpf...` in the source.
use zfs_slab_mobility.Prelude.{ℕ}

abbrev pub locked : ℕ
locked = 0

abbrev pub error : ℕ
error = 1

abbrev pub referenced : ℕ
referenced = 2

abbrev pub uptodate : ℕ
uptodate = 3

abbrev pub dirty : ℕ
dirty = 4

abbrev pub lru : ℕ
lru = 5

abbrev pub active : ℕ
active = 6

abbrev pub slab : ℕ
slab = 7

abbrev pub writeback : ℕ
writeback = 8

abbrev pub reclaim : ℕ
reclaim = 9

abbrev pub buddy : ℕ
buddy = 10

abbrev pub mmap : ℕ
mmap = 11

abbrev pub anon : ℕ
anon = 12

abbrev pub swapcache : ℕ
swapcache = 13

abbrev pub swapbacked : ℕ
swapbacked = 14

abbrev pub compound_head : ℕ
compound_head = 15

abbrev pub compound_tail : ℕ
compound_tail = 16

abbrev pub huge : ℕ
huge = 17

abbrev pub unevictable : ℕ
unevictable = 18

abbrev pub hwpoison : ℕ
hwpoison = 19

abbrev pub no_page : ℕ
no_page = 20

abbrev pub ksm : ℕ
ksm = 21

abbrev pub thp : ℕ
thp = 22

abbrev pub offline : ℕ
offline = 23

abbrev pub zero_page : ℕ
zero_page = 24

abbrev pub idle : ℕ
idle = 25

abbrev pub pg_table : ℕ
pg_table = 26

abbrev pub reserved : ℕ
reserved = 32

abbrev pub mlocked : ℕ
mlocked = 33

abbrev pub owner2 : ℕ
owner2 = 34

abbrev pub private : ℕ
private = 35

abbrev pub private2 : ℕ
private2 = 36

abbrev pub owner_private : ℕ
owner_private = 37

abbrev pub arch : ℕ
arch = 38

abbrev pub soft_dirty : ℕ
soft_dirty = 40

abbrev pub arch2 : ℕ
arch2 = 41

abbrev pub arch3 : ℕ
arch3 = 42
