-- ===== src/Build.antt =====
-- What a build derives from the script: src/build.
pub mod Subtitles
