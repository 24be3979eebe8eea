-- ===== src/Examples.antt =====
-- Each theorem at a concrete input, and runs of the program's functions.
mod Data
mod Scrape
mod Families
mod Tags
mod Network
mod Loop
mod Setup
mod Watch
mod Addresses
mod Program
mod Reload
mod Connect
mod Statsloop
mod Runs
mod Server
mod Influx
mod Logs
mod Collection
mod Exposed
