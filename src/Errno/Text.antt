-- ===== src/Errno/Text.antt =====
-- fru_strerr of lib/fru_errno.c, with the table of its texts.
use frugen.Common.{ℕ, Bytes, codes}
use frugen.Errno.{
  ErrorCode, FruErrno, fenone, fegeneric, feinit, fenonprint, fenonhex, ferange, fenoteven,
  feautoenc, febadenc, fe2small, fe2big, fesize, fehdrver, fehdrcksum, fehdrbadptr, fedatacksum,
  feareadup, feareanotsup, feareabadtype, fenoterm, febdate, fenofield, fenorec, febaddata,
  fenodata, femrmgmtbad, femrnotsup, femrend, feapos, fenotempty, feaenabled, feadisabled, felib,
}

-- fru_errno_string
unfoldable pub errno_string : ErrorCode → Bytes
errno_string fenone = codes "No libfru error"
errno_string fegeneric = codes "Generic error, check errno"
errno_string feinit = codes "Uninitialized FRU structure"
errno_string fenonprint = codes "Field data contains non-printable bytes"
errno_string fenonhex = codes "Input string contains non-hex characters"
errno_string ferange = codes "Field data exceeds range for the requested encoding"
errno_string fenoteven = codes "Not an even number of nibbles"
errno_string feautoenc = codes "Unable to auto-detect encoding"
errno_string febadenc = codes "Invalid encoding for a field"
errno_string fe2small = codes "File or buffer is too small"
errno_string fe2big = codes "Data, file, or buffer is too big"
errno_string fesize = codes "Data size mismatch"
errno_string fehdrver = codes "Bad header version"
errno_string fehdrcksum = codes "Bad header checksum"
errno_string fehdrbadptr = codes "Area pointer beyond the end of file/buffer"
errno_string fedatacksum = codes "Bad data checksum"
errno_string feareadup = codes "Duplicate area in area order"
errno_string feareanotsup = codes "Unsupported area type"
errno_string feareabadtype = codes "Bad area type"
errno_string fenoterm = codes "Unterminated area"
errno_string febdate = codes "Board manufacturing date is out of range"
errno_string fenofield = codes "No such field"
errno_string fenorec = codes "No such record"
errno_string febaddata = codes "Malformed data"
errno_string fenodata = codes "No data"
errno_string femrmgmtbad = codes "Bad management record subtype"
errno_string femrnotsup = codes "Unsupported record type"
errno_string femrend = codes "End of MR records (not an error)"
errno_string feapos = codes "Invalid area position"
errno_string fenotempty = codes "List is not empty"
errno_string feaenabled = codes "Area is enabled"
errno_string feadisabled = codes "Areas is disabled"
errno_string felib = codes "Internal library error (bug?)"

-- fru_strerr: for FEGENERIC it asks the C library, but for the library's own code, which is 1.
unfoldable pub strerr_code : (strerror : ℕ → Bytes) → ErrorCode → Bytes
strerr_code strerror fegeneric = strerror 1
strerr_code strerror code = errno_string code

unfoldable pub strerr : (strerror : ℕ → Bytes) → FruErrno → Bytes
strerr strerror ferr = strerr_code strerror ferr.code
