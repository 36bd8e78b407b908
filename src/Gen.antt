-- ===== src/Gen.antt =====
-- examples/chronoid-gen.c: the command line tool. A text is the list of its bytes, without the NUL.
pub mod Stdio
pub mod Print
pub mod Options
pub mod Main
pub mod Numbers
pub mod Exits
pub mod Printed
pub mod Ends
pub mod Echo
pub mod Generate
