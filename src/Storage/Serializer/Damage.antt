-- ===== src/Storage/Serializer/Damage.antt =====
-- src/core/storage/IndexSerializer.cpp: what the CRC of an index file finds out.
use winindex.Prelude.{
  ℕ, ◌≤◌, ◌≡◌, ◌≢◌, sym, ap, ◌∙◌, List, ◌++◌, arith, All, All-append, length, take, drop, some,
  drop-length, take-drop-append,
}
use winindex.Prelude.Bits.{bit_xor_cancel}
use winindex.Storage.Serializer.{crc_loop, crc32, le_value}
use winindex.Storage.Serializer.Read.{Loaded, ok, rejected, deserialize, deserialize_bytes}
use winindex.Storage.Serializer.Crc.{IsByte, crc32-crc_loop, crc_loop-lt}
use winindex.Storage.Serializer.Steps.{IsWord, crc_loop-append, crc_loop_window, crc_loop_after}

module _ (front w w' back : List ℕ) (front_bytes : All IsByte front) (bytes : All IsByte w)
    (bytes' : All IsByte w') (back_bytes : All IsByte back) (same_length : length w ≡ length w')
    (short : length w ≤ 4) where
  -- Within four bytes in a row, the CRC determines the bytes.
  crc32_window : crc32 (front ++ (w ++ back)) ≡ crc32 (front ++ (w' ++ back)) → w ≡ w'
  crc32_window e =
      let start = crc_loop 0xFFFFFFFF front in
      let fits : IsWord start = crc_loop-lt 0xFFFFFFFF front front_bytes (omega arith) in
      let all = All-append IsByte front _ front_bytes (All-append IsByte w _ bytes back_bytes) in
      let all' = All-append IsByte front _ front_bytes (All-append IsByte w' _ bytes' back_bytes) in
      let registers : crc_loop 0xFFFFFFFF (front ++ (w ++ back))
          ≡ crc_loop 0xFFFFFFFF (front ++ (w' ++ back)) =
        bit_xor_cancel 0xFFFFFFFF (sym (crc32-crc_loop _ all) ∙ e ∙ crc32-crc_loop _ all') in
      let after : crc_loop (crc_loop start w) back ≡ crc_loop (crc_loop start w') back = cc (
        registers,
        crc_loop-append 0xFFFFFFFF front (w ++ back),
        crc_loop-append 0xFFFFFFFF front (w' ++ back),
        crc_loop-append start w back,
        crc_loop-append start w' back,
      ) in
      let behind =
        crc_loop_after (crc_loop start w) (crc_loop start w') back back_bytes
          (crc_loop-lt start w bytes fits) (crc_loop-lt start w' bytes' fits) after in
      crc_loop_window start w w' same_length short bytes bytes' fits behind

module _ (towlower : ℕ → ℕ) where
  checked_crc :
      (file : List ℕ) {l : Loaded}
      → deserialize_bytes towlower file ≡ ok l
      → crc32 (drop 26 file) ≡ le_value (take 4 (drop 22 file))
  unfolding deserialize_bytes
  checked_crc file e = ground arith

  wrong_crc :
      (file : List ℕ)
      → crc32 (drop 26 file) ≢ le_value (take 4 (drop 22 file))
      → deserialize_bytes towlower file ≡ rejected
  unfolding deserialize_bytes
  wrong_crc file e = ground arith

  -- If an index file loads, then it is rejected after any change of up to four bytes in a row of
  -- its payload.
  pub deserialize-damaged :
      (header front w w' back : List ℕ) {l : Loaded}
      → length header ≡ 26
      → All IsByte front
      → All IsByte w
      → All IsByte w'
      → All IsByte back
      → length w ≡ length w'
      → length w ≤ 4
      → w ≢ w'
      → deserialize towlower (some (header ++ (front ++ (w ++ back)))) ≡ ok l
      → deserialize towlower (some (header ++ (front ++ (w' ++ back)))) ≡ rejected
  unfolding deserialize
  deserialize-damaged header front w w' back long f b b' k same short differ e =
      let payload = front ++ (w ++ back) in
      let payload' = front ++ (w' ++ back) in
      let behind : drop 26 (header ++ payload) ≡ payload =
        rw (← long) (drop-length header payload) in
      let behind' : drop 26 (header ++ payload') ≡ payload' =
        rw (← long) (drop-length header payload') in
      let stored = take-drop-append header payload 22 4 (omega arith) in
      let stored' = take-drop-append header payload' 22 4 (omega arith) in
      let old = checked_crc (header ++ payload) e in
      wrong_crc (header ++ payload') λ new. differ (
        crc32_window front w w' back f b b' k same short
          (cc (ap le_value stored, ap le_value stored', behind, behind', old, new)))
