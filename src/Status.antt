-- ===== src/Status.antt =====
-- src/status.h: the codes that the kernel's functions return, negated where they report an error.
use guava_os_pro.Prelude.Int.{ℤ, pos, negsuc}

-- GUAVAOS_ALL_OK
abbrev pub all_ok : ℤ
all_ok = pos 0

abbrev pub eio : ℤ
eio = negsuc 0

abbrev pub einvarg : ℤ
einvarg = negsuc 1

abbrev pub enomem : ℤ
enomem = negsuc 2

abbrev pub ebadpath : ℤ
ebadpath = negsuc 3

abbrev pub efsnotus : ℤ
efsnotus = negsuc 4

abbrev pub erdonly : ℤ
erdonly = negsuc 5

abbrev pub eunimp : ℤ
eunimp = negsuc 6

abbrev pub eistkn : ℤ
eistkn = negsuc 7
