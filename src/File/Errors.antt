-- ===== src/File/Errors.antt =====
-- The errors of the files; `failed` holds an error of the function that a file was built with.
pub data FileError (E : Type 0) : Type 0 where
  read_only write_only not_open not_open_for_reading not_open_for_writing : FileError E
  one_mode_only limit_exceeded : FileError E
  failed : E → FileError E
