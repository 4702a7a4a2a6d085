-- ===== src/Content/Open/Parts.antt =====
-- `fileread` and `filewrite` of file.c: a write in parts is one write.
use basic_os.Prelude.{ℕ, ◌+◌, ◌%◌, ◌^◌, List, length, ltb, if◌then◌else◌}
use basic_os.File.{File}
use basic_os.Content.{Content}

-- `if ((r = readi(...)) > 0) f->off += r`
abbrev moved : List ℕ → File → File
moved bs f = if ltb 0 (length bs) then record f { off = (f.off + length bs) % 2 ^ 32 } else f
