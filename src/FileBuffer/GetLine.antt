-- ===== src/FileBuffer/GetLine.antt =====
-- get_line of src_2face/SimpleFlashFsFileBuffer.h gives the lines of the file.
use simpleflashfs.FileBuffer.Types.{FileBuffer}
