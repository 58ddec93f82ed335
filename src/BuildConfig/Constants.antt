-- ===== src/BuildConfig/Constants.antt =====
-- python/src/mlogv32/preprocessor/constants.py: the addresses of the control and status registers,
-- in the order of the source's dict, and the sizes of the linker's suffixes.
use mlogv.Prelude.{ℕ, zero, suc, ◌+◌, ◌*◌, List, [], ◌∷◌, ◌++◌, Text, codes}
use mlogv.PyInt.{decimal}

abbrev pub memory_k : ℕ
memory_k = 1024

abbrev pub memory_m : ℕ
memory_m = 1024 * 1024

-- `{f"{name}{i}{suffix}": base + i for i in range(first, first + count)}`
numbered : Text → Text → ℕ → ℕ → ℕ → List (Text × ℕ)
numbered name suffix base first zero = []
numbered name suffix base first (suc count) =
    (name ++ (decimal first ++ suffix), base + first) ∷ numbered name suffix base (first + 1) count

unprivileged : List (Text × ℕ)
unprivileged = (codes "cycle", 0xC00) ∷ (codes "time", 0xC01) ∷ (codes "instret", 0xC02) ∷ []

unprivileged_high : List (Text × ℕ)
unprivileged_high =
    (codes "cycleh", 0xC80) ∷ (codes "timeh", 0xC81) ∷ (codes "instreth", 0xC82) ∷ []

supervisor_machine : List (Text × ℕ)
supervisor_machine =
    (codes "sstatus", 0x100)
    ∷ (codes "sie", 0x104)
    ∷ (codes "stvec", 0x105)
    ∷ (codes "scounteren", 0x106)
    ∷ (codes "stimecmp", 0x14D)
    ∷ (codes "stimecmph", 0x15D)
    ∷ (codes "senvcfg", 0x10A)
    ∷ (codes "scountinhibit", 0x120)
    ∷ (codes "sscratch", 0x140)
    ∷ (codes "sepc", 0x141)
    ∷ (codes "scause", 0x142)
    ∷ (codes "stval", 0x143)
    ∷ (codes "sip", 0x144)
    ∷ (codes "scountovf", 0xDA0)
    ∷ (codes "satp", 0x180)
    ∷ (codes "scontext", 0x5A8)
    ∷ (codes "sstateen0", 0x10C)
    ∷ (codes "sstateen1", 0x10D)
    ∷ (codes "sstateen2", 0x10E)
    ∷ (codes "sstateen3", 0x10F)
    ∷ (codes "mvendorid", 0xF11)
    ∷ (codes "marchid", 0xF12)
    ∷ (codes "mimpid", 0xF13)
    ∷ (codes "mhartid", 0xF14)
    ∷ (codes "mconfigptr", 0xF15)
    ∷ (codes "mstatus", 0x300)
    ∷ (codes "misa", 0x301)
    ∷ (codes "medeleg", 0x302)
    ∷ (codes "mideleg", 0x303)
    ∷ (codes "mie", 0x304)
    ∷ (codes "mtvec", 0x305)
    ∷ (codes "mcounteren", 0x306)
    ∷ (codes "mstatush", 0x310)
    ∷ (codes "medelegh", 0x312)
    ∷ (codes "mscratch", 0x340)
    ∷ (codes "mepc", 0x341)
    ∷ (codes "mcause", 0x342)
    ∷ (codes "mtval", 0x343)
    ∷ (codes "mip", 0x344)
    ∷ (codes "mtinst", 0x34A)
    ∷ (codes "mtval2", 0x34B)
    ∷ (codes "menvcfg", 0x30A)
    ∷ (codes "menvcfgh", 0x31A)
    ∷ (codes "mseccfg", 0x747)
    ∷ (codes "mseccfgh", 0x757)
    ∷ []

machine_more : List (Text × ℕ)
machine_more =
    (codes "mstateen0", 0x30C)
    ∷ (codes "mstateen1", 0x30D)
    ∷ (codes "mstateen2", 0x30E)
    ∷ (codes "mstateen3", 0x30F)
    ∷ (codes "mstateen0h", 0x31C)
    ∷ (codes "mstateen1h", 0x31D)
    ∷ (codes "mstateen2h", 0x31E)
    ∷ (codes "mstateen3h", 0x31F)
    ∷ (codes "mnscratch", 0x740)
    ∷ (codes "mnepc", 0x741)
    ∷ (codes "mncause", 0x742)
    ∷ (codes "mnstatus", 0x744)
    ∷ (codes "mcycle", 0xB00)
    ∷ (codes "minstret", 0xB02)
    ∷ []

counters_high : List (Text × ℕ)
counters_high = (codes "mcycleh", 0xB80) ∷ (codes "minstreth", 0xB82) ∷ []

inhibit : List (Text × ℕ)
inhibit = (codes "mcountinhibit", 0x320) ∷ []

-- `CSRS`; the groups of the dict literal are named for their first entries
unfoldable pub csrs : List (Text × ℕ)
unfolding numbered unprivileged unprivileged_high supervisor_machine machine_more counters_high
    inhibit decimal
csrs =
    unprivileged
    ++ (numbered (codes "hpmcounter") (codes "") 0xC00 3 29
        ++ (unprivileged_high
            ++ (numbered (codes "hpmcounter") (codes "h") 0xC80 3 29
                ++ (supervisor_machine
                    ++ (numbered (codes "pmpcfg") (codes "") 0x3A0 0 16
                        ++ (numbered (codes "pmpaddr") (codes "") 0x3B0 0 64
                            ++ (machine_more
                                ++ (numbered (codes "mhpmcounter") (codes "") 0xB00 3 29
                                    ++ (counters_high
                                        ++ (numbered (codes "mhpmcounter") (codes "h") 0xB80 3 29
                                            ++ (inhibit
                                                ++ (numbered (codes "mhpmevent") (codes "") 0x320 3
                                                      29
                                                    ++ (numbered (codes "mhpmevent") (codes "h")
                                                        0x720 3 29)))))))))))))
