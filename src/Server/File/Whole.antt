-- ===== src/Server/File/Whole.antt =====
-- src/media_server.rs: the response that streams a whole file.
use unicast.Base.{
  ℕ, ◌-◌, ◌+◌, ◌<◌, ◌≡◌, refl, true, false, none, some, [], ◌∷◌, ◌++◌, Text, codes, print_nat,
  arith,
}
use unicast.Server.{respond, slice, dlna_headers}
use unicast.Server.File.{
  Disk, Wanted, file_response, serve_slice, serve_file-slice, wanted, accepted_range,
}

pub file_response_by_default :
    (content_type : Text) (disk : Disk) (size : ℕ)
    → disk.size ≡ some size
    → disk.opens ≡ true
    → disk.seeks ≡ true
    → 0 < size
    → file_response content_type disk none
      ≡ respond 200
          (dlna_headers ((codes "accept-ranges", codes "bytes") ∷ []) content_type false
            ++ (codes "content-length", print_nat size) ∷ [])
          (slice 0 size)
unfolding file_response wanted accepted_range
file_response_by_default content_type disk size s o k pos =
    let w : Wanted = record { start = 0; end = size - 1; partial = false } in
    let sliced = serve_file-slice content_type disk size w (omega arith) (omega arith) in
    let all : size - 1 - 0 + 1 ≡ size = omega arith in
    simp (s, sliced) (unfold serve_slice in simp (o, k, all) refl)
